-- ===== src/Protocol/Session.antt =====
-- packages/protocol/src/session.ts: an established session, one key and one counter a direction.
pub mod Bounds
pub mod Channel
pub mod Truncation
pub mod Failure
pub mod Nonces
pub mod Stream
pub mod Handshake
pub mod Runs
use Prim.Native.String.{String}
use tnp.Prelude.{
  ℕ, ◌+◌, ◌-◌, ◌%◌, ◌==◌, Bool, true, false, not, ◌||◌, ◌&&◌, ltb, leb, min, if◌then◌else◌, Option,
  none, some, List, [], ◌∷◌, ◌++◌, length, get_or, drop, default_to, Result, ok, err, ◌>>=◌, ◌>>◌,
  require, Number, whole, not_whole, value, RangeError,
}
use tnp.Prelude.Bytes.{u16_bytes, u32_bytes, u64_bytes, u64_of, wipe}
use tnp.Protocol.ErrorCode.{protocol_violation, replay_detected, decrypt_failed, truncated}
use tnp.Protocol.FrameType.{is_frame_type, allowed_flags}
use tnp.Protocol.Constants.{
  protocol_version, max_frame_payload, sealed_record_overhead, max_sealed_plaintext,
  max_records_per_key, key_update_interval,
}
use tnp.Protocol.Frame.{stray_flags, range_error}
use tnp.Protocol.Noise.{Aead, encrypt_with_ad, decrypt_with_ad, rekey}

pub record SessionError : Type 0 where
  pub message : String
  pub code : ℕ

-- What a method of the session throws.
pub data Thrown : Type 0 where
  range : RangeError → Thrown
  session : SessionError → Thrown
  rekey_required : Thrown

abbrev pub session_error : String → ℕ → SessionError
session_error m c = record { message = m; code = c }

pub record ResolvedLimits : Type 0 where
  pub max_records_per_key : ℕ
  pub key_update_interval : ℕ

-- `Number.isSafeInteger(n) && n >= least && n <= most`, for bounds that are safe integers.
unfoldable pub in_range : Number → ℕ → ℕ → Bool
in_range (whole n) least most = leb least n && leb n most
in_range not_whole least most = false

-- `resolveLimits`: the fields of an absent `limits` are absent.
unfoldable pub resolve_limits : Option Number → Option Number → Result RangeError ResolvedLimits
resolve_limits max_records interval = do
  let most = default_to (whole max_records_per_key) max_records
  require (in_range most 2 max_records_per_key)
      (range_error "maxRecordsPerKey must be an integer in [2, MAX_RECORDS_PER_KEY]")
  let ceiling = min key_update_interval (value most - 1)
  let update = default_to (whole ceiling) interval
  require (in_range update 1 ceiling)
      (range_error "keyUpdateInterval must be an integer in [1, intervalCeiling]")
  ok (record { max_records_per_key = value most; key_update_interval = value update })

-- The frame fields that a sealed record is bound to.
pub record RecordHeader : Type 0 where
  pub type : ℕ
  pub flags : Number
  pub stream_id : Number

unfoldable pub valid_flags : Number → ℕ → Bool
valid_flags (whole f) allowed = stray_flags f allowed == 0
valid_flags not_whole allowed = false

unfoldable pub frame_associated_data : RecordHeader → Result RangeError (List ℕ)
unfolding u16_bytes u32_bytes
frame_associated_data h = do
  require (is_frame_type h.type) (range_error "Unknown frame type")
  require (valid_flags h.flags (allowed_flags h.type))
      (range_error "Invalid flags for this frame type")
  require (in_range h.stream_id 0 0xffff_ffff) (range_error "streamId out of range")
  ok (
      protocol_version
      ∷ h.type % 256
      ∷ (u16_bytes (value h.flags) ++ u32_bytes (value h.stream_id)))

abbrev pub record_data : ℕ
record_data = 0x00

abbrev pub record_close : ℕ
record_close = 0x01

abbrev pub record_key_update : ℕ
record_key_update = 0x02

pub data OpenedRecord : Type 0 where
  plain : List ℕ → OpenedRecord
  close key_update : OpenedRecord

-- `SessionCipher`
pub record Session : Type 0 where
  pub send_key : List ℕ
  pub receive_key : List ℕ
  pub send_counter : ℕ
  pub receive_counter : ℕ
  pub sent_close : Bool
  pub received_close : Bool
  pub failed : Option SessionError
  pub hash : List ℕ
  pub limits : ResolvedLimits

unfoldable pub create : (send_key receive_key hash : List ℕ) → ResolvedLimits → Session
create send_key receive_key hash limits = record {
  send_key = send_key;
  receive_key = receive_key;
  send_counter = 0;
  receive_counter = 0;
  sent_close = false;
  received_close = false;
  failed = none;
  hash = hash;
  limits = limits;
}

unfoldable pub needs_key_update : Session → Bool
needs_key_update s = leb s.limits.key_update_interval s.send_counter

unfoldable pub poison : Session → SessionError → Session
poison s e = elim s.failed [
  | some old ↦ s
  | none ↦ record s {
    failed = some e;
    send_key = wipe s.send_key;
    receive_key = wipe s.receive_key;
  }
]

unfoldable pub assert_can_send : Session → Result Thrown (Unit {0})
assert_can_send s = elim s.failed [
  | some e ↦ err (session e)
  | none ↦ do
    require (not s.sent_close)
        (session (session_error "session already closed for sending" protocol_violation))
    require (ltb s.send_counter s.limits.max_records_per_key) rekey_required
    ok tt
]

abbrev pub as_thrown {ℓ} : {A : Type ℓ} → Result RangeError A → Result Thrown A
as_thrown (ok a) = ok a
as_thrown (err e) = err (range e)

-- The counter of a record: its first eight bytes.
unfoldable pub counter_of : List ℕ → ℕ
unfolding u64_of
counter_of r =
    u64_of (get_or r 0 0) (get_or r 1 0) (get_or r 2 0) (get_or r 3 0) (get_or r 4 0) (get_or r 5 0)
      (get_or r 6 0) (get_or r 7 0)

-- `open` poisons the session on a `SessionError`, and on nothing else.
unfoldable pub poisoned :
    Result SessionError OpenedRecord × Session → Result Thrown OpenedRecord × Session
poisoned (ok r, s) = (ok r, s)
poisoned (err e, s) = (err (session e), poison s e)

-- `inner[0]`; an empty array has none, and then no type is matched.
unfoldable pub type_of : List ℕ → ℕ
type_of inner = get_or inner 0 256

module _ (a : Aead) where
  -- The record that is sent, and the session with the counter moved on.
  unfoldable pub seal_record :
      Session → ℕ → List ℕ → RecordHeader → Result Thrown (List ℕ × Session)
  seal_record s type body header = do
    ad ← as_thrown (frame_associated_data header)
    let counter = s.send_counter
    let sealed = encrypt_with_ad a s.send_key counter ad (type ∷ body)
    ok (u64_bytes counter ++ sealed, record s { send_counter = counter + 1 })

  -- A method that sends and throws changes nothing: no assignment comes before a throw.
  unfoldable pub seal : Session → List ℕ → RecordHeader → Result Thrown (List ℕ × Session)
  seal s plaintext header = do
    require (leb (length plaintext) max_sealed_plaintext)
        (range (range_error "plaintext exceeds MAX_SEALED_PLAINTEXT"))
    assert_can_send s
    require (ltb s.send_counter (s.limits.max_records_per_key - 1)) rekey_required
    seal_record s record_data plaintext header

  unfoldable pub close_session : Session → RecordHeader → Result Thrown (List ℕ × Session)
  close_session s header = do
    assert_can_send s
    (sealed, s') ← seal_record s record_close [] header
    ok (sealed, record s' { sent_close = true; send_key = wipe s'.send_key })

  unfoldable pub update_key : Session → RecordHeader → Result Thrown (List ℕ × Session)
  update_key s header = do
    assert_can_send s
    (sealed, s') ← seal_record s record_key_update [] header
    ok (sealed, record s' { send_key = rekey a s'.send_key; send_counter = 0 })

  -- What an authentic record does to the session, whose counter has moved on.
  unfoldable pub open_inner : Session → List ℕ → Result SessionError OpenedRecord × Session
  open_inner s inner =
      if type_of inner == record_data
      then if leb s.limits.max_records_per_key s.receive_counter
        then (err (session_error "data record in the reserved slot" protocol_violation), s)
        else (ok (plain (drop 1 inner)), s)
      else if not (length inner == 1)
      then (err (session_error "control record with a body" protocol_violation), s)
      else if type_of inner == record_close
      then (ok close, record s { received_close = true; receive_key = wipe s.receive_key })
      else if type_of inner == record_key_update
      then (ok key_update, record s { receive_key = rekey a s.receive_key; receive_counter = 0 })
      else (err (session_error "unknown record type" protocol_violation), s)

  unfoldable pub open_record :
      Session → List ℕ → List ℕ → Result SessionError OpenedRecord × Session
  open_record s sealed ad =
      if s.received_close
      then (err (session_error "record after authenticated close" protocol_violation), s)
      else if ltb (length sealed) sealed_record_overhead || ltb max_frame_payload (length sealed)
      then (err (session_error "sealed record has an impossible size" protocol_violation), s)
      else if ltb (counter_of sealed) s.receive_counter
      then (err (session_error "record counter already used" replay_detected), s)
      else if ltb s.receive_counter (counter_of sealed)
      then (err (session_error "record out of order" protocol_violation), s)
      else if leb s.limits.max_records_per_key s.receive_counter
      then (
        err (
            session_error "peer exceeded the record limit without a key update" protocol_violation),
        s,
      )
      else elim (decrypt_with_ad a s.receive_key (counter_of sealed) ad (drop 8 sealed)) [
        | none ↦ (err (session_error "record failed authentication" decrypt_failed), s)
        | some inner ↦ open_inner (record s { receive_counter = s.receive_counter + 1 }) inner
      ]

  unfoldable pub open_next : Session → List ℕ → RecordHeader → Result Thrown OpenedRecord × Session
  open_next s sealed header = elim s.failed [
    | some e ↦ (err (session e), s)
    | none ↦ elim (frame_associated_data header) [
      | err e ↦ (err (range e), s)
      | ok ad ↦ poisoned (open_record s sealed ad)
    ]
  ]

unfoldable pub transport_ended : Session → Result Thrown (Unit {0}) × Session
transport_ended s = elim s.failed [
  | some e ↦ (err (session e), s)
  | none ↦
      let cut = session_error "stream ended without an authenticated close" truncated in
      if s.received_close then (ok tt, s) else (err (session cut), poison s cut)
]
