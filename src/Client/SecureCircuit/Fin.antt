-- ===== src/Client/SecureCircuit/Fin.antt =====
-- packages/client/src/overlay/secure-circuit.ts: an end of a circuit takes the peer to have finished only
-- by a record that the session opened as its FIN.
use tnp.Prelude.{
  ℕ, ◌≡◌, refl, ◌∙◌, sym, Bool, true, false, ◌&&◌, ◌||◌, ◌⊎◌, inl, inr, Option, none, some, List,
  [], ◌∷◌, whole, if_both,
}
use tnp.Protocol.Noise.{Aead}
use tnp.Protocol.Overlay.Stream.{reset}
use tnp.Protocol.Session.{SessionError}
use tnp.Client.SecureCircuit.{
  SecureCircuit, CircuitLink, Delivery, on_close, on_done, call, deliver, finish, is_client, offer,
  destroy_frame,
}
use tnp.Client.SecureCircuit.Sending.{reset_stream}
use tnp.Client.SecureCircuit.Receiving.{Operation, perform, run}
use tnp.Client.SecureCircuit.Kept.{send_message-keep, send_session_close-keep}
use tnp.Client.SecureCircuit.Kept.Operations.{IsInvariant}
use tnp.Client.SecureCircuit.Kept.Histories.{OpensFin, perform-keep}

-- At some point of a history, a frame arrives that the session, as it is then, opens as the peer's FIN.
unfoldable pub FinOpened : Aead → List (CircuitLink × Operation) → SecureCircuit → Type 0
FinOpened a [] c = ⊥
FinOpened a ((link, o) ∷ rest) c = OpensFin a o c ⊎ FinOpened a rest (perform a link o c)

deliver_same : (d : Delivery) (c : SecureCircuit) → (deliver d c).peer_fin ≡ c.peer_fin
unfolding deliver
deliver_same d c =
    if_both (λ (c' : SecureCircuit). c'.peer_fin ≡ c.peer_fin) c.bound (λ b. refl) (λ b. refl)

finish_same :
    (e : Option SessionError) (notify force : Bool) (c : SecureCircuit)
    → (finish e notify force c).peer_fin ≡ c.peer_fin
unfolding finish
finish_same e notify force c =
    if_both (λ (c' : SecureCircuit). c'.peer_fin ≡ c.peer_fin) c.done (λ d. refl)
      (λ d.
        let c1 = record c { done = true } in
        if_both
          (λ (c2 : SecureCircuit).
            (call (on_done e) (deliver (on_close e) c2)).peer_fin ≡ c.peer_fin)
          (notify && (is_client c.role || force))
          (λ n. deliver_same (on_close e) (offer (destroy_frame c.id) c1))
          (λ n. deliver_same (on_close e) c1))

-- That the peer has finished has this for a reason.
FinGives : Type 0 → SecureCircuit → Type 0
FinGives Reason c = c.peer_fin ≡ true → Reason

module _ (Reason : Type 0) where
  finish-FinGives :
      (e : Option SessionError) (notify force : Bool) (c : SecureCircuit)
      → FinGives Reason c
      → FinGives Reason (finish e notify force c)
  unfolding FinGives
  finish-FinGives e notify force c p h = p (sym (finish_same e notify force c) ∙ h)

  invariant : IsInvariant (FinGives Reason)
  unfolding FinGives
  invariant = record {
    sending = record {
      at_session = λ c s p. p;
      at_record = λ c r p. p;
      at_failure = λ c e notify force p. finish-FinGives (some e) notify force c p;
    };
    at_started = λ c p. p;
    at_sent_opened = λ c p. p;
    at_sent_fin = λ c p. p;
    at_sent_close = λ c p. p;
    at_peer_close = λ c p. p;
    at_consumed = λ c n p. p;
    at_backlog = λ c b p. p;
    at_bound = λ c p. p;
    at_call = λ c k e p. p;
    at_debit = λ c n p. p;
    at_credit = λ c n p. p;
    at_received = λ c n e p. p;
    at_granted = λ c n p. p;
    at_clean = λ c notify f p. finish-FinGives none notify false c p;
  }

  reset_stream-FinGives :
      (a : Aead) (link : CircuitLink) (code : ℕ) (c : SecureCircuit)
      → FinGives Reason c
      → FinGives Reason (reset_stream a link code c)
  unfolding reset_stream FinGives
  reset_stream-FinGives a link code c p =
      if_both (FinGives Reason) c.done (λ d. p)
        (λ d. finish-FinGives none true true _ (
          send_session_close-keep a (FinGives Reason) invariant.sending link (λ c p. p) _
            (send_message-keep a (FinGives Reason) invariant.sending link (reset (whole code)) c
              p)))

perform-OpensFin :
    (a : Aead) (link : CircuitLink) (o : Operation) (c : SecureCircuit)
    → (perform a link o c).peer_fin ≡ true
    → (c.peer_fin ≡ true) ⊎ OpensFin a o c
unfolding FinGives
perform-OpensFin a link o c =
    let Reason : Type 0 = (c.peer_fin ≡ true) ⊎ OpensFin a o c in
    perform-keep a (FinGives Reason) (invariant Reason) link o
      (λ code e. reset_stream-FinGives Reason a link code) c (λ f c' p h. inr f) (λ h. inl h)

-- The peer has finished only if it had from the start, or its FIN was opened on the way.
pub run-FinOpened :
    (a : Aead) (history : List (CircuitLink × Operation)) (c : SecureCircuit)
    → (run a history c).peer_fin ≡ true
    → (c.peer_fin ≡ true) ⊎ FinOpened a history c
unfolding run FinOpened
run-FinOpened a [] c h = inl h
run-FinOpened a ((link, o) ∷ rest) c h = elim (run-FinOpened a rest (perform a link o c) h) [
  | inr f ↦ inr (inr f)
  | inl now ↦ elim (perform-OpensFin a link o c now) [
    | inl before ↦ inl before
    | inr f ↦ inr (inl f)
  ]
]
