-- ===== src/Protocol/Session/Channel.antt =====
-- Two ends of one direction: what one end sends, the other opens, in order.
use tnp.Prelude.{
  ℕ, ◌+◌, ◌^◌, ◌≤◌, ◌<◌, ◌≡◌, refl, inl, inr, true, false, none, List, [], ◌∷◌, ◌++◌, arith, length,
  length-append, drop, Result, ok, Result-cases,
}
use tnp.Prelude.Bytes.{u64_bytes, wipe}
use tnp.Protocol.Noise.{
  Aead, IsAead, encrypt_with_ad, rekey, length-encrypt_with_ad, decrypt-encrypt_with_ad,
}
use tnp.Protocol.Session.{
  Session, Thrown, OpenedRecord, plain, close, key_update, RecordHeader, frame_associated_data,
  assert_can_send, seal_record, seal, close_session, update_key, open_inner, open_record, open_next,
  poisoned, counter_of, type_of, record_data, record_close, record_key_update,
}

-- A call of the sending end.
pub data Send : Type 0 where
  data_of : List ℕ → RecordHeader → Send
  update_of close_of : RecordHeader → Send

abbrev pub header_of : Send → RecordHeader
header_of (data_of p h) = h
header_of (update_of h) = h
header_of (close_of h) = h

-- What the other end should read.
abbrev pub meaning : Send → OpenedRecord
meaning (data_of p h) = plain p
meaning (update_of h) = key_update
meaning (close_of h) = close

-- The receiving half of `b` is where the sending half of `a` is.
pub record IsSynced (a b : Session) : Type 0 where
  pub keys : a.send_key ≡ b.receive_key
  pub counters : a.send_counter ≡ b.receive_counter
  pub closes : a.sent_close ≡ b.received_close
  pub sender_lives : a.failed ≡ none
  pub receiver_lives : b.failed ≡ none
  pub same_limit : a.limits.max_records_per_key ≡ b.limits.max_records_per_key
  pub limit : a.limits.max_records_per_key ≤ 2 ^ 32

pub counter_of-u64 : (c : ℕ) (r : List ℕ) → c < 2 ^ 64 → counter_of (u64_bytes c ++ r) ≡ c
unfolding counter_of u64_bytes
counter_of-u64 c r h = omega arith

pub drop-u64 : (c : ℕ) (r : List ℕ) → drop 8 (u64_bytes c ++ r) ≡ r
unfolding u64_bytes
drop-u64 c r = refl

length-u64 : (c : ℕ) → length (u64_bytes c) ≡ 8
unfolding u64_bytes
length-u64 c = refl

-- The counter after a send: from zero under a new key, one more otherwise.
abbrev pub next_counter : Send → ℕ → ℕ
next_counter (update_of h) c = 0
next_counter (data_of p h) c = c + 1
next_counter (close_of h) c = c + 1

module _ (a : Aead) where
  unfoldable pub send : Session → Send → Result Thrown (List ℕ × Session)
  send s (data_of p h) = seal a s p h
  send s (update_of h) = update_key a s h
  send s (close_of h) = close_session a s h

  abbrev sealed : Session → List ℕ → List ℕ → List ℕ
  sealed s ad inner =
      u64_bytes s.send_counter ++ encrypt_with_ad a s.send_key s.send_counter ad inner

  seal_record-eq-ok :
      (s s' : Session) (type : ℕ) (body : List ℕ) (h : RecordHeader) (r : List ℕ)
      → seal_record a s type body h ≡ ok (r, s')
      → (ad : List ℕ) × (frame_associated_data h ≡ ok ad)
        × (r ≡ sealed s ad (type ∷ body))
        × (s' ≡ record s { send_counter = s.send_counter + 1 })
  unfolding seal_record
  seal_record-eq-ok s s' type body h r e = elim (Result-cases (frame_associated_data h)) [
    | inl (ad, f) ↦ (ad, f, ground arith, ground arith)
    | inr (x, f) ↦ cc (rw f at e)
  ]

  seal-eq-ok :
      (s s' : Session) (p : List ℕ) (h : RecordHeader) (r : List ℕ)
      → seal a s p h ≡ ok (r, s')
      → (s.sent_close ≡ false)
        × (s.send_counter + 1 < s.limits.max_records_per_key)
        × (length p ≤ 65510)
        × (seal_record a s record_data p h ≡ ok (r, s'))
  unfolding seal assert_can_send
  seal-eq-ok s s' p h r e = ground arith

  update_key-eq-ok :
      (s s' : Session) (h : RecordHeader) (r : List ℕ)
      → update_key a s h ≡ ok (r, s')
      → (s.sent_close ≡ false)
        × (s.send_counter < s.limits.max_records_per_key)
        × (ad : List ℕ) × (frame_associated_data h ≡ ok ad)
        × (r ≡ sealed s ad (record_key_update ∷ []))
        × (s' ≡ record s { send_key = rekey a s.send_key; send_counter = 0 })
  unfolding update_key assert_can_send seal_record
  update_key-eq-ok s s' h r e = elim (Result-cases (frame_associated_data h)) [
    | inl (ad, f) ↦ (ground arith, ground arith, ad, f, ground arith, ground arith)
    | inr (x, f) ↦ absurd (ground arith)
  ]

  close_session-eq-ok :
      (s s' : Session) (h : RecordHeader) (r : List ℕ)
      → close_session a s h ≡ ok (r, s')
      → (s.sent_close ≡ false)
        × (s.send_counter < s.limits.max_records_per_key)
        × (ad : List ℕ) × (frame_associated_data h ≡ ok ad)
        × (r ≡ sealed s ad (record_close ∷ []))
        × (s' ≡ record s {
          send_key = wipe s.send_key;
          send_counter = s.send_counter + 1;
          sent_close = true;
        })
  unfolding close_session assert_can_send seal_record
  close_session-eq-ok s s' h r e = elim (Result-cases (frame_associated_data h)) [
    | inl (ad, f) ↦ (ground arith, ground arith, ad, f, ground arith, ground arith)
    | inr (x, f) ↦ absurd (ground arith)
  ]

  pub send_counts :
      (s s' : Session) (ev : Send) (r : List ℕ)
      → s.limits.max_records_per_key ≤ 2 ^ 32
      → send s ev ≡ ok (r, s')
      → (counter_of r ≡ s.send_counter)
        × (s.send_counter < s.limits.max_records_per_key)
        × (s'.send_counter ≡ next_counter ev s.send_counter)
        × (s'.limits ≡ s.limits)
  unfolding send
  send_counts s s' (data_of p h) r most e =
      let (live, room, small, sealing) = seal-eq-ok s s' p h r e in
      let (ad, f, same_r, same_s) = seal_record-eq-ok s s' record_data p h r sealing in
      (rw same_r (counter_of-u64 _ _ (omega arith)), omega arith, rw same_s, rw same_s)
  send_counts s s' (update_of h) r most e =
      let (live, room, ad, f, same_r, same_s) = update_key-eq-ok s s' h r e in
      (rw same_r (counter_of-u64 _ _ (omega arith)), room, rw same_s, rw same_s)
  send_counts s s' (close_of h) r most e =
      let (live, room, ad, f, same_r, same_s) = close_session-eq-ok s s' h r e in
      (rw same_r (counter_of-u64 _ _ (omega arith)), room, rw same_s, rw same_s)

  -- What a send makes of the key.
  abbrev pub IsKeyAfter : Send → Session → Session → Type 0
  IsKeyAfter (data_of p h) s s' = s'.send_key ≡ s.send_key
  IsKeyAfter (update_of h) s s' = s'.send_key ≡ rekey a s.send_key
  IsKeyAfter (close_of h) s s' = s'.sent_close ≡ true

  pub send-IsKeyAfter :
      (s s' : Session) (ev : Send) (r : List ℕ)
      → send s ev ≡ ok (r, s')
      → (s.sent_close ≡ false) × IsKeyAfter ev s s'
  unfolding send
  send-IsKeyAfter s s' (data_of p h) r e =
      let (live, room, small, sealing) = seal-eq-ok s s' p h r e in
      let (ad, f, same_r, same_s) = seal_record-eq-ok s s' record_data p h r sealing in
      (live, rw same_s)
  send-IsKeyAfter s s' (update_of h) r e =
      let (live, room, ad, f, same_r, same_s) = update_key-eq-ok s s' h r e in (live, rw same_s)
  send-IsKeyAfter s s' (close_of h) r e =
      let (live, room, ad, f, same_r, same_s) = close_session-eq-ok s s' h r e in (live, rw same_s)

  module _ (law : IsAead a) where
    open_record-sealed :
        (s b : Session) (ad : List ℕ) (type : ℕ) (body : List ℕ)
        → IsSynced s b
        → b.received_close ≡ false
        → s.send_counter < s.limits.max_records_per_key
        → length body ≤ 65510
        → open_record a b (sealed s ad (type ∷ body)) ad
          ≡ open_inner a (record b { receive_counter = b.receive_counter + 1 }) (type ∷ body)
    unfolding open_record
    open_record-sealed s b ad type body y live room small = ground (
      arith,
      y.counters,
      counter_of-u64 s.send_counter (encrypt_with_ad a s.send_key s.send_counter ad (type ∷ body)),
      drop-u64 s.send_counter (encrypt_with_ad a s.send_key s.send_counter ad (type ∷ body)),
      length-append (u64_bytes s.send_counter)
          (encrypt_with_ad a s.send_key s.send_counter ad (type ∷ body)),
      length-u64 s.send_counter,
      length-encrypt_with_ad a law s.send_key s.send_counter ad (type ∷ body),
      decrypt-encrypt_with_ad a law s.send_key s.send_counter ad (type ∷ body),
    )

    open_next-sealed :
        (s b : Session) (h : RecordHeader) (ad : List ℕ) (type : ℕ) (body : List ℕ)
        → IsSynced s b
        → s.sent_close ≡ false
        → s.send_counter < s.limits.max_records_per_key
        → length body ≤ 65510
        → frame_associated_data h ≡ ok ad
        → open_next a b (sealed s ad (type ∷ body)) h
          ≡ poisoned
              (open_inner a (record b { receive_counter = b.receive_counter + 1 }) (type ∷ body))
    unfolding open_next
    open_next-sealed s b h ad type body y live room small f =
        ground (arith, open_record-sealed s b ad type body y)

    abbrev Delivered : Session → Session → Send → List ℕ → Type 0
    Delivered s' b ev r =
        (b' : Session) × (open_next a b r (header_of ev) ≡ (ok (meaning ev), b')) × IsSynced s' b'

    deliver_data :
        (s s' b : Session) (p : List ℕ) (h : RecordHeader) (r : List ℕ)
        → IsSynced s b
        → seal a s p h ≡ ok (r, s')
        → Delivered s' b (data_of p h) r
    unfolding open_inner poisoned type_of
    deliver_data s s' b p h r y e =
        let (live, room, small, sealing) = seal-eq-ok s s' p h r e in
        let (ad, f, same_r, same_s) = seal_record-eq-ok s s' record_data p h r sealing in
        let b' : Session = record b { receive_counter = b.receive_counter + 1 } in
        (b', ground (arith, open_next-sealed s b h ad record_data p y live), ground arith)

    deliver_update :
        (s s' b : Session) (h : RecordHeader) (r : List ℕ)
        → IsSynced s b
        → update_key a s h ≡ ok (r, s')
        → Delivered s' b (update_of h) r
    unfolding open_inner poisoned type_of
    deliver_update s s' b h r y e =
        let (live, room, ad, f, same_r, same_s) = update_key-eq-ok s s' h r e in
        let b' : Session = record b { receive_key = rekey a b.receive_key; receive_counter = 0 } in
        (
          b',
          ground (arith, open_next-sealed s b h ad record_key_update [] y live room),
          ground (arith, y.keys),
        )

    deliver_close :
        (s s' b : Session) (h : RecordHeader) (r : List ℕ)
        → IsSynced s b
        → close_session a s h ≡ ok (r, s')
        → Delivered s' b (close_of h) r
    unfolding open_inner poisoned type_of
    deliver_close s s' b h r y e =
        let (live, room, ad, f, same_r, same_s) = close_session-eq-ok s s' h r e in
        let b' : Session = record b {
          receive_key = wipe b.receive_key;
          receive_counter = b.receive_counter + 1;
          received_close = true;
        } in
        (
          b',
          ground (arith, open_next-sealed s b h ad record_close [] y live room),
          ground (arith, y.keys),
        )

    -- One record: what one end sends without throwing, the other end opens as what was meant, and the
    -- two ends are in step again.
    pub open-send :
        (s s' b : Session) (ev : Send) (r : List ℕ)
        → IsSynced s b
        → send s ev ≡ ok (r, s')
        → Delivered s' b ev r
    unfolding send
    open-send s s' b (data_of p h) r y e = deliver_data s s' b p h r y e
    open-send s s' b (update_of h) r y e = deliver_update s s' b h r y e
    open-send s s' b (close_of h) r y e = deliver_close s s' b h r y e
