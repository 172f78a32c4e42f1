-- ===== src/Protocol/Session/Failure.antt =====
-- What `open` accepts, and that every error it throws is final.
use tnp.Prelude.{
  ℕ, ◌+◌, ◌≤◌, ◌<◌, ◌≡◌, sym, ◌∙◌, ◌≢◌, ltb, ◌⊎◌, inl, inr, false, none, some, List, [], ◌∷◌, arith,
  length, drop, Result, ok, err, Result-cases, Option-cases, Bool-cases,
}
use tnp.Protocol.ErrorCode.{protocol_violation, replay_detected}
use tnp.Protocol.Noise.{Aead, IsAead, encrypt_with_ad, decrypt_with_ad, encrypt-decrypt_with_ad}
use tnp.Protocol.Session.{
  Session, SessionError, session, OpenedRecord, plain, close, key_update, record_data, record_close,
  record_key_update, type_of, session_error, RecordHeader, frame_associated_data, assert_can_send,
  seal, close_session, update_key, open_inner, open_record, open_next, poisoned, poison, counter_of,
  transport_ended,
}

-- Every method throws `e`; a text that is too long is refused before that.
pub record IsDead (a : Aead) (s : Session) (e : SessionError) : Type 0 where
  pub no_seal : (p : List ℕ) (h : RecordHeader) → length p ≤ 65510 → seal a s p h ≡ err (session e)
  pub no_close : (h : RecordHeader) → close_session a s h ≡ err (session e)
  pub no_update : (h : RecordHeader) → update_key a s h ≡ err (session e)
  pub no_open : (r : List ℕ) (h : RecordHeader) → open_next a s r h ≡ (err (session e), s)
  pub no_end : transport_ended s ≡ (err (session e), s)

IsDead-of_failed : (a : Aead) (s : Session) (e : SessionError) → s.failed ≡ some e → IsDead a s e
unfolding seal close_session update_key assert_can_send open_next transport_ended
IsDead-of_failed a s e f = record {
  no_seal = λ p h l. ground arith;
  no_close = λ h. ground arith;
  no_update = λ h. ground arith;
  no_open = λ r h. ground arith;
  no_end = ground arith;
}

-- The plaintext of a record.
abbrev pub contents : OpenedRecord → List ℕ
contents (plain p) = record_data ∷ p
contents close = record_close ∷ []
contents key_update = record_key_update ∷ []

poison-failed : (s : Session) (e : SessionError) → s.failed ≡ none → (poison s e).failed ≡ some e
unfolding poison
poison-failed s e h = rw (h, poison)

module _ (a : Aead) where
  open_inner-failed : (s : Session) (inner : List ℕ) → (open_inner a s inner).1.failed ≡ s.failed
  unfolding open_inner
  open_inner-failed s inner = ground arith

  open_record-failed : (s : Session) (r ad : List ℕ) → (open_record a s r ad).1.failed ≡ s.failed
  unfolding open_record
  open_record-failed s r ad =
      elim (Option-cases (decrypt_with_ad a s.receive_key (counter_of r) ad (drop 8 r))) [
        | inl x ↦ ground arith
        | inr (inner, x) ↦
            ground (
              arith,
              open_inner-failed (record s { receive_counter = s.receive_counter + 1 }) inner,
            )
      ]

  poisoned-failed :
      (s s' : Session) (e : SessionError) (res : Result SessionError OpenedRecord × Session)
      → res.1.failed ≡ none
      → poisoned res ≡ (err (session e), s')
      → s'.failed ≡ some e
  unfolding poisoned
  poisoned-failed s s' e (ok o, t) n eq = absurd (ground arith)
  poisoned-failed s s' e (err x, t) n eq = ground (arith, poison-failed t x n)

  failed_of :
      (s s' : Session) (r : List ℕ) (h : RecordHeader) (e : SessionError)
      → open_next a s r h ≡ (err (session e), s')
      → s'.failed ≡ some e
  unfolding open_next
  failed_of s s' r h e eq = elim (Option-cases s.failed) [
    | inr (x, f) ↦ ground arith
    | inl f ↦ elim (Result-cases (frame_associated_data h)) [
      | inr (x, g) ↦ absurd (ground arith)
      | inl (ad, g) ↦
          poisoned-failed s s' e (open_record a s r ad) (open_record-failed s r ad ∙ f)
            (ground arith)
    ]
  ]

  -- A session that threw a `SessionError` on a record is dead in both directions: from then on every
  -- method throws that same error.
  pub open_next-IsDead :
      (s s' : Session) (r : List ℕ) (h : RecordHeader) (e : SessionError)
      → open_next a s r h ≡ (err (session e), s')
      → IsDead a s' e
  open_next-IsDead s s' r h e eq = IsDead-of_failed a s' e (failed_of s s' r h e eq)

  open_inner-eq-ok :
      (s s' : Session) (inner : List ℕ) (o : OpenedRecord)
      → open_inner a s inner ≡ (ok o, s')
      → inner ≡ contents o
  unfolding open_inner type_of
  open_inner-eq-ok s s' [] o e = absurd (ground arith)
  open_inner-eq-ok s s' (x ∷ []) o e = ground arith
  open_inner-eq-ok s s' (x ∷ y ∷ xs) o e = ground arith

  open_record-eq-ok :
      (s s' : Session) (r ad : List ℕ) (o : OpenedRecord)
      → open_record a s r ad ≡ (ok o, s')
      → (s.received_close ≡ false)
        × (counter_of r ≡ s.receive_counter)
        × (s.receive_counter < s.limits.max_records_per_key)
        × (decrypt_with_ad a s.receive_key s.receive_counter ad (drop 8 r) ≡ some (contents o))
  unfolding open_record
  open_record-eq-ok s s' r ad o e =
      elim (Option-cases (decrypt_with_ad a s.receive_key (counter_of r) ad (drop 8 r))) [
        | inl x ↦ absurd (ground arith)
        | inr (inner, x) ↦
            let next : Session = record s { receive_counter = s.receive_counter + 1 } in
            (
              ground arith,
              ground arith,
              ground arith,
              ground (arith, open_inner-eq-ok next s' inner o),
            )
      ]

  poisoned-eq-ok :
      (res : Result SessionError OpenedRecord × Session) (o : OpenedRecord) (s' : Session)
      → poisoned res ≡ (ok o, s')
      → res ≡ (ok o, s')
  unfolding poisoned
  poisoned-eq-ok (ok x, t) o s' e = ground arith
  poisoned-eq-ok (err x, t) o s' e = absurd (ground arith)

  -- A record is opened only if the session is alive and the peer has not closed, if the record's
  -- counter is the next one and within the limit, and if its ciphertext is exactly what sealing the
  -- opened contents under the current key makes of them, in a frame with this header.
  pub open_next-exact :
      (law : IsAead a) (s s' : Session) (r : List ℕ) (h : RecordHeader) (o : OpenedRecord)
      → open_next a s r h ≡ (ok o, s')
      → (s.failed ≡ none)
        × (s.received_close ≡ false)
        × (counter_of r ≡ s.receive_counter)
        × (s.receive_counter < s.limits.max_records_per_key)
        × (ad : List ℕ) × (frame_associated_data h ≡ ok ad)
        × (drop 8 r ≡ encrypt_with_ad a s.receive_key s.receive_counter ad (contents o))
  unfolding open_next
  open_next-exact law s s' r h o e = elim (Option-cases s.failed) [
    | inr (x, f) ↦ absurd (ground arith)
    | inl f ↦ elim (Result-cases (frame_associated_data h)) [
      | inr (x, g) ↦ absurd (ground arith)
      | inl (ad, g) ↦
          let opened = poisoned-eq-ok (open_record a s r ad) o s' (ground arith) in
          let (live, next, room, sound) = open_record-eq-ok s s' r ad o opened in
          (f, live, next, room, ad, g, sym (encrypt-decrypt_with_ad a law _ _ _ _ _ sound))
    ]
  ]

  -- A record with another counter than the next one kills a live session, whatever else it holds: a
  -- counter that was used is reported as a replay, a later one as a protocol violation.
  pub open_next-other_counter :
      (s : Session) (r ad : List ℕ) (h : RecordHeader)
      → s.failed ≡ none
      → s.received_close ≡ false
      → frame_associated_data h ≡ ok ad
      → 25 ≤ length r
      → length r ≤ 65535
      → counter_of r ≢ s.receive_counter
      → (e : SessionError) × ((open_next a s r h).0 ≡ err (session e))
        × ((open_next a s r h).1.failed ≡ some e)
        × (((counter_of r < s.receive_counter) × (e.code ≡ replay_detected))
            ⊎ ((s.receive_counter < counter_of r) × (e.code ≡ protocol_violation)))
  unfolding open_next open_record poisoned poison
  open_next-other_counter s r ad h f live g least most ne =
      elim (Bool-cases (ltb (counter_of r) s.receive_counter)) [
        | inl old ↦ (
          session_error "record counter already used" replay_detected,
          ground arith,
          ground arith,
          ground arith,
        )
        | inr new ↦ (
          session_error "record out of order" protocol_violation,
          ground arith,
          ground arith,
          ground arith,
        )
      ]
