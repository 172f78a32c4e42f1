-- ===== src/Protocol/Session/Bounds.antt =====
-- The limits of a session, and what the associated data binds.
use tnp.Prelude.{
  ℕ, ◌%◌, ◌^◌, ◌≤◌, ◌<◌, ◌≡◌, refl, true, Option, List, arith, ok, Number, whole, not_whole, value,
  ◌∙◌, sym, ◌∷◌, ◌++◌, ==→eq, inl, inr, default_to,
}
use tnp.Prelude.Bytes.{u16_bytes, u32_bytes}
use tnp.Protocol.FrameType.{allowed_flags, allowed_flags-cases, is_frame_type-lt}
use tnp.Protocol.Frame.Bounds.{stray_flags_iff}
use tnp.Protocol.Session.{
  ResolvedLimits, resolve_limits, in_range, RecordHeader, frame_associated_data, valid_flags,
}

-- Limits that are accepted can only lower the protocol's, and leave a counter for the close or the
-- key update: between 2 and 2^32 records a key, and an update after at least one record, at most
-- 2^24, and before the reserved one. What was given is what is used.
pub resolve_limits_bounds :
    (max_records interval : Option Number) (l : ResolvedLimits)
    → resolve_limits max_records interval ≡ ok l
    → (2 ≤ l.max_records_per_key)
      × (l.max_records_per_key ≤ 2 ^ 32)
      × (1 ≤ l.key_update_interval)
      × (l.key_update_interval ≤ 2 ^ 24)
      × (l.key_update_interval < l.max_records_per_key)
      × (default_to (whole l.max_records_per_key) max_records ≡ whole l.max_records_per_key)
      × (default_to (whole l.key_update_interval) interval ≡ whole l.key_update_interval)
unfolding resolve_limits in_range
resolve_limits_bounds max_records interval l e = ground arith

written : RecordHeader → List ℕ
unfolding u16_bytes u32_bytes
written h = 1 ∷ h.type % 256 ∷ (u16_bytes (value h.flags) ++ u32_bytes (value h.stream_id))

-- A header that the function accepts, and what it makes of it.
record IsBound (h : RecordHeader) : Type 0 where
  type_range : h.type < 256
  flags_whole : h.flags ≡ whole (value h.flags)
  flags_range : value h.flags % 2 ^ 32 < 4
  stream_whole : h.stream_id ≡ whole (value h.stream_id)
  stream_range : value h.stream_id < 2 ^ 32

valid_flags-eq-true :
    (n : Number) (t : ℕ)
    → valid_flags n (allowed_flags t) ≡ true
    → (n ≡ whole (value n)) × (value n % 2 ^ 32 < 4)
unfolding valid_flags
valid_flags-eq-true not_whole t e = cc
valid_flags-eq-true (whole f) t e =
    let low = (stray_flags_iff f t).0 (==→eq _ _ e) in
    (refl, elim (allowed_flags-cases t) [ inl z ↦ omega arith | inr z ↦ omega arith ])

frame_associated_data-eq-ok :
    (h : RecordHeader) (ad : List ℕ)
    → frame_associated_data h ≡ ok ad
    → IsBound h × (written h ≡ ad)
unfolding frame_associated_data in_range written
frame_associated_data-eq-ok h ad e =
    let (f_whole, f_range) = valid_flags-eq-true h.flags h.type (ground arith) in
    (
      record {
        type_range = is_frame_type-lt h.type (ground arith);
        flags_whole = f_whole;
        flags_range = f_range;
        stream_whole = ground arith;
        stream_range = ground arith;
      },
      ground arith,
    )

written-injective :
    (h k : RecordHeader)
    → IsBound h
    → IsBound k
    → value h.flags < 2 ^ 32
    → value k.flags < 2 ^ 32
    → written h ≡ written k
    → h ≡ k
unfolding written
written-injective h k bh bk fh fk e = ground arith

-- Equal associated data means an equal header, as far as flags are below 2^32.
pub frame_associated_data-injective :
    (h k : RecordHeader) (ad : List ℕ)
    → value h.flags < 2 ^ 32
    → value k.flags < 2 ^ 32
    → frame_associated_data h ≡ ok ad
    → frame_associated_data k ≡ ok ad
    → h ≡ k
frame_associated_data-injective h k ad fh fk eh ek =
    let (bh, wh) = frame_associated_data-eq-ok h ad eh in
    let (bk, wk) = frame_associated_data-eq-ok k ad ek in
    written-injective h k bh bk fh fk (wh ∙ sym wk)
