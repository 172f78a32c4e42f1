-- ===== src/Client/SecureCircuit/Kept.antt =====
-- packages/client/src/overlay/secure-circuit.ts: what sending keeps, whatever the connection and the
-- session do.
pub mod Operations
pub mod Histories
use tnp.Prelude.{
  ℕ, ◌≡◌, refl, sym, Bool, true, false, ◌||◌, List, length, Result, ok, err, ◌>>=◌, Bool-cases, inl,
  inr, bind-eq-ok, ok_inj, some,
}
use tnp.Protocol.Noise.{Aead}
use tnp.Protocol.Overlay.Stream.{StreamMessage, encode_stream_message}
use tnp.Protocol.Session.{
  Session, SessionError, Thrown, range, session, rekey_required, seal, as_thrown, update_key,
  needs_key_update,
}
use tnp.Client.SecureCircuit.{
  SecureCircuit, CircuitLink, record_frame, record_header, offer, finish, as_session_error,
}
use tnp.Client.SecureCircuit.Sending.{
  Sent, send_record, after_update, renew, seal_message, beside, retry, post_sealed, post,
  after_post, send_message, after_close, send_session_close,
}

-- A predicate that sending cannot break: of it, sending changes the session, the frames that carry
-- records, and, by a failure, what `finish` changes.
pub record IsKept {ℓ} (P : SecureCircuit → Type ℓ) : Type ℓ where
  pub at_session : (c : SecureCircuit) (s : Session) → P c → P (record c { state = s })
  pub at_record :
      (c : SecureCircuit) (sealed : List ℕ) → P c → P (offer (record_frame c.id sealed) c)
  pub at_failure :
      (c : SecureCircuit) (e : SessionError) (notify force : Bool)
      → P c
      → P (finish (some e) notify force c)

-- The circuit that an outcome holds satisfies the predicate.
Holds {ℓ} : {A : Type 0} → (SecureCircuit → Type ℓ) → (A → SecureCircuit) → Sent A → Type ℓ
Holds P at (ok r) = P (at r)
Holds P at (err e) = P e.1

module _ {ℓ} (a : Aead) (P : SecureCircuit → Type ℓ) (kept : IsKept P) (link : CircuitLink) where
  send_record-keep : (c : SecureCircuit) (sealed : List ℕ) → P c → P (send_record link sealed c).1
  unfolding send_record
  send_record-keep c sealed p = elim (Bool-cases (link.sends (length c.frames))) [
    | inl h ↦ rw h (kept.at_record c sealed p)
    | inr h ↦ rw h (kept.at_failure _ _ false false (kept.at_record c sealed p))
  ]

  bind-Holds :
      {A B : Type 0} (f : A → SecureCircuit) (g : B → SecureCircuit) (m : Sent A) (k : A → Sent B)
      → Holds P f m
      → ((r : A) → P (f r) → Holds P g (k r))
      → Holds P g (m >>= k)
  unfolding Holds
  bind-Holds f g (ok r) k p q = q r p
  bind-Holds f g (err e) k p q = p

  after_update-keep :
      (c : SecureCircuit) (u : Result Thrown (List ℕ × Session))
      → P c
      → Holds P (λ x. x) (after_update link c u)
  unfolding Holds after_update
  after_update-keep c (ok (sealed, s)) p =
      send_record-keep (record c { state = s }) sealed (kept.at_session c s p)
  after_update-keep c (err e) p = p

  sealed-keep :
      (m : StreamMessage) (c : SecureCircuit) (r : Result Thrown (List ℕ × SecureCircuit))
      → seal_message a m c ≡ r
      → P c
      → Holds P (λ x. x.1) (beside c r)
  unfolding Holds seal_message
  sealed-keep m c (ok r) h p =
      let (body, body_ok, h1) = bind-eq-ok (as_thrown (encode_stream_message m)) h in
      let ((sealed, s), seal_ok, h2) = bind-eq-ok (seal a c.state body record_header) h1 in
      rw (sym (ok_inj h2)) (kept.at_session c s p)
  sealed-keep m c (err e) h p = p

  retry-keep :
      (m : StreamMessage) (c : SecureCircuit) (r : Result Thrown (List ℕ × SecureCircuit))
      → seal_message a m c ≡ r
      → P c
      → Holds P (λ x. x.1) (retry a link m c r)
  unfolding retry
  retry-keep m c (err rekey_required) h p =
      bind-Holds (λ x. x) (λ x. x.1) (renew a link c)
        (λ renewed. beside renewed (seal_message a m renewed))
        (after_update-keep c (update_key a c.state record_header) p)
        (λ renewed q. sealed-keep m renewed _ refl q)
  retry-keep m c (err (range e)) h p = sealed-keep m c _ h p
  retry-keep m c (err (session e)) h p = sealed-keep m c _ h p
  retry-keep m c (ok r) h p = sealed-keep m c _ h p

  post_sealed-keep :
      (m : StreamMessage) (c : SecureCircuit) → P c → Holds P (λ x. x.1) (post_sealed a link m c)
  unfolding Holds
  post_sealed-keep m c p =
      bind-Holds (λ x. x.1) (λ x. x.1) (retry a link m c (seal_message a m c))
        (λ (sealed, c1). ok (send_record link sealed c1)) (retry-keep m c _ refl p)
        (λ (sealed, c1) q. send_record-keep c1 sealed q)

  after_post-keep : (r : Sent (Bool × SecureCircuit)) → Holds P (λ x. x.1) r → P (after_post r).1
  unfolding Holds after_post
  after_post-keep (ok r) p = p
  after_post-keep (err (e, c)) p = kept.at_failure c (as_session_error "send failed" e) true true p

  post-keep : (m : StreamMessage) (c : SecureCircuit) → P c → Holds P (λ x. x.1) (post a link m c)
  unfolding post
  post-keep m c p = elim (Bool-cases (needs_key_update c.state)) [
    | inl h ↦ rw h (
        bind-Holds (λ x. x) (λ x. x.1) (renew a link c) (post_sealed a link m)
          (after_update-keep c (update_key a c.state record_header) p)
          (λ renewed q. post_sealed-keep m renewed q))
    | inr h ↦ rw h (post_sealed-keep m c p)
  ]

  pub send_message-keep :
      (m : StreamMessage) (c : SecureCircuit) → P c → P (send_message a link m c).1
  unfolding send_message
  send_message-keep m c p = elim (Bool-cases (c.done || c.sent_close)) [
    | inl h ↦ rw h p
    | inr h ↦ rw h (after_post-keep (post a link m c) (post-keep m c p))
  ]

  after_close-keep :
      (c : SecureCircuit) (r : Result Thrown (List ℕ × Session)) → P c → P (after_close link c r)
  unfolding after_close
  after_close-keep c (ok (sealed, s)) p =
      send_record-keep (record c { state = s }) sealed (kept.at_session c s p)
  after_close-keep c (err e) p = p

  pub send_session_close-keep :
      ((c : SecureCircuit) → P c → P (record c { sent_close = true }))
      → (c : SecureCircuit) → P c
      → P (send_session_close a link c)
  unfolding send_session_close
  send_session_close-keep q c p = elim (Bool-cases (c.sent_close || c.done)) [
    | inl h ↦ rw h p
    | inr h ↦ rw h (q _ (after_close-keep c _ p))
  ]
