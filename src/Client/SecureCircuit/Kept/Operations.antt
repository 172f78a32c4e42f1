-- ===== src/Client/SecureCircuit/Kept/Operations.antt =====
-- packages/client/src/overlay/secure-circuit.ts: what the owner's operations keep, whatever the
-- connection and the session do.
use tnp.Prelude.{
  ℕ, ◌+◌, ◌-◌, ◌≤◌, ◌==◌, ◌≡◌, refl, Bool, true, false, not, ◌||◌, ◌&&◌, ltb, min, Option, some,
  none, List, [], ◌∷◌, ◌++◌, length, drop, take, whole, if_both, default_to, leb, arith, zero, suc,
}
use tnp.Protocol.Constants.{stream_window_initial}
use tnp.Protocol.FlowControl.{debit, credit}
use tnp.Protocol.Noise.{Aead}
use tnp.Protocol.Overlay.Stream.{StreamMessage, open_port, opened, chunk, window, fin}
use tnp.Protocol.Session.{SessionError}
use tnp.Client.SecureCircuit.{
  SecureCircuit, CircuitLink, Call, event, on_writable, on_done, Delivery, on_close, call, deliver,
  tell_writable, finish, is_client, bind, replay, poke, remote_destroyed, abort, grant_threshold,
}
use tnp.Client.SecureCircuit.Sending.{
  send_message, send_session_close, maybe_close, maybe_complete, open_stream, accept, writable,
  write_from, consumed, end,
}
use tnp.Client.SecureCircuit.Kept.{IsKept, send_message-keep, send_session_close-keep}

unfoldable pub is_end : Call → Bool
is_end (on_done e) = true
is_end k = false

-- A predicate that no operation can break, `reset` and the peer's FIN left aside. A clean finish comes after the peer's
-- FIN only, and does not force the end on the relay.
pub record IsInvariant {ℓ} (P : SecureCircuit → Type ℓ) : Type ℓ where
  pub sending : IsKept P
  pub at_started : (c : SecureCircuit) → P c → P (record c { started = true })
  pub at_sent_opened : (c : SecureCircuit) → P c → P (record c { sent_opened = true })
  pub at_sent_fin : (c : SecureCircuit) → P c → P (record c { sent_fin = true })
  pub at_sent_close : (c : SecureCircuit) → P c → P (record c { sent_close = true })
  pub at_peer_close : (c : SecureCircuit) → P c → P (record c { peer_close = true })
  pub at_consumed : (c : SecureCircuit) (n : ℕ) → P c → P (record c { consumed_ungranted = n })
  pub at_backlog : (c : SecureCircuit) (b : List Delivery) → P c → P (record c { backlog = b })
  pub at_bound :
      (c : SecureCircuit)
      → P c
      → P (record c { bound = true; backlog = []; calls = replay c.backlog c.calls })
  pub at_call : (c : SecureCircuit) (k : Call) → is_end k ≡ false → P c → P (call k c)
  pub at_debit :
      (c : SecureCircuit) (n : ℕ) → P c → P (record c { send_window = (debit c.send_window n).1 })
  pub at_credit :
      (c : SecureCircuit) (n : ℕ) → P c → P (record c { send_window = credit c.send_window n })
  pub at_received :
      (c : SecureCircuit) (n : ℕ)
      → n ≤ stream_window_initial
      → P c
      → P (record c { received_ungranted = n })
  pub at_granted :
      (c : SecureCircuit) (n : ℕ)
      → P c
      → P (record c { received_ungranted = c.received_ungranted - n })
  pub at_clean :
      (c : SecureCircuit) (notify : Bool) → c.peer_fin ≡ true → P c → P (finish none notify false c)

finish-peer_fin :
    (e : Option SessionError) (notify force : Bool) (c : SecureCircuit)
    → c.peer_fin ≡ true
    → (finish e notify force c).peer_fin ≡ true
unfolding finish deliver
finish-peer_fin e notify force c h =
    let Fin = λ (c : SecureCircuit). c.peer_fin ≡ true in
    if_both Fin c.done (λ d. h)
      (λ d.
        let c1 = record c { done = true } in
        if_both
          (λ (c2 : SecureCircuit). (call (on_done e) (deliver (on_close e) c2)).peer_fin ≡ true)
          (notify && (is_client c.role || force)) (λ n. if_both Fin c.bound (λ b. h) (λ b. h))
          (λ n. if_both Fin c.bound (λ b. h) (λ b. h)))

module _ {ℓ} (a : Aead) (P : SecureCircuit → Type ℓ) (i : IsInvariant P) (link : CircuitLink) where
  pub send-keep : (m : StreamMessage) (c : SecureCircuit) → P c → P (send_message a link m c).1
  send-keep m c p = send_message-keep a P i.sending link m c p

  pub deliver-keep : (d : Delivery) (c : SecureCircuit) → P c → P (deliver d c)
  unfolding deliver is_end
  deliver-keep d c p =
      if_both P c.bound (λ b. i.at_call c (event d) refl p)
        (λ b. i.at_backlog c (c.backlog ++ (d ∷ [])) p)

  pub tell_writable-keep : (c : SecureCircuit) → P c → P (tell_writable c)
  unfolding tell_writable is_end
  tell_writable-keep c p = if_both P c.bound (λ b. i.at_call c on_writable refl p) (λ b. p)

  pub fail-keep :
      (e : SessionError) (notify force : Bool) (c : SecureCircuit)
      → P c
      → P (finish (some e) notify force c)
  fail-keep e notify force c p = i.sending.at_failure c e notify force p

  pub bind-keep : (c : SecureCircuit) → P c → P (bind c)
  unfolding bind
  bind-keep c p =
      let c1 = record c { bound = true; backlog = []; calls = replay c.backlog c.calls } in
      if_both P c.done (λ d. i.at_bound c p) (λ d. tell_writable-keep c1 (i.at_bound c p))

  pub poke-keep : (c : SecureCircuit) → P c → P (poke c)
  unfolding poke
  poke-keep c p = if_both P c.done (λ d. p) (λ d. tell_writable-keep c p)

  pub remote_destroyed-keep : (c : SecureCircuit) → P c → P (remote_destroyed c)
  unfolding remote_destroyed
  remote_destroyed-keep c p =
      if_both P c.done (λ d. p)
        (λ d. if_both P c.peer_fin (λ f. i.at_clean c false f p) (λ f. fail-keep _ false false c p))

  pub abort-keep : (c : SecureCircuit) → P c → P (abort c)
  unfolding abort
  abort-keep c p = if_both P c.done (λ d. p) (λ d. fail-keep _ true false c p)

  -- With the peer's FIN, which sending does not take back.
  unfoldable pub Finished : SecureCircuit → Type ℓ
  Finished c = P c × (c.peer_fin ≡ true)

  Finished-IsKept : IsKept Finished
  unfolding Finished
  Finished-IsKept = record {
    at_session = λ c s (p, f). (i.sending.at_session c s p, f);
    at_record = λ c r (p, f). (i.sending.at_record c r p, f);
    at_failure = λ c e notify force (p, f).
        (fail-keep e notify force c p, finish-peer_fin (some e) notify force c f);
  }

  pub maybe_complete-keep : (c : SecureCircuit) → Finished c → P (maybe_complete c)
  unfolding Finished
  maybe_complete-keep c (p, f) =
      if_both P (c.sent_close && c.peer_close) (λ h. i.at_clean c true f p) (λ h. p)

  pub maybe_close-keep : (c : SecureCircuit) → P c → P (maybe_close a link c)
  unfolding maybe_close Finished
  maybe_close-keep c p =
      if_both P (c.sent_fin && (c.peer_fin && not c.sent_close))
        (λ h. maybe_complete-keep (send_session_close a link c) (
          send_session_close-keep a Finished Finished-IsKept link
            (λ c' (q, f). (i.at_sent_close c' q, f)) c (p, ground arith)))
        (λ h. p)

  pub end-keep : (c : SecureCircuit) → P c → P (end a link c)
  unfolding end
  end-keep c p =
      if_both P (c.done || c.sent_fin) (λ h. p)
        (λ h. maybe_close-keep _ (send-keep fin _ (i.at_sent_fin c p)))

  pub accept-keep : (c : SecureCircuit) → P c → P (accept a link c)
  unfolding accept
  accept-keep c p =
      if_both P (is_client c.role || c.sent_opened) (λ h. p)
        (λ h. tell_writable-keep _ (send-keep opened _ (i.at_sent_opened c p)))

  pub open_stream-keep :
      (port : ℕ) (c : SecureCircuit) → P c → P (default_to c (open_stream a link port c))
  unfolding open_stream
  open_stream-keep port c p =
      if_both (λ o. P (default_to c o)) (is_client c.role)
        (λ h. send-keep (open_port (whole port)) c p) (λ h. p)

  pub write_from-keep :
      (fuel : ℕ) (bytes : List ℕ) (c : SecureCircuit) → P c → P (write_from a link fuel bytes c).1
  unfolding write_from
  write_from-keep zero bytes c p = p
  write_from-keep (suc fuel) bytes c p =
      let n = min (writable link c) (length bytes) in
      let Q = λ (r : ℕ × SecureCircuit). P r.1 in
      let p1 = i.at_debit c n p in
      let c1 = record c { send_window = (debit c.send_window n).1 } in
      let p2 = send-keep (chunk (take n bytes)) c1 p1 in
      let c2 = (send_message a link (chunk (take n bytes)) c1).1 in
      if_both Q (leb (length bytes) 0 || writable link c == 0) (λ h. p)
        (λ h.
          if_both Q (not (debit c.send_window n).0) (λ h. p1)
            (λ h.
              if_both Q (send_message a link (chunk (take n bytes)) c1).0
                (λ h. write_from-keep fuel (drop n bytes) c2 p2) (λ h. p2)))

  pub consumed-keep : (n : ℕ) (c : SecureCircuit) → P c → P (consumed a link n c)
  unfolding consumed
  consumed-keep n c p =
      let taken = c.consumed_ungranted + n in
      let credit = min taken c.received_ungranted in
      let p1 = i.at_consumed c 0 p in
      if_both P (c.done || (c.peer_fin || c.sent_close)) (λ h. p)
        (λ h.
          if_both P (ltb taken grant_threshold) (λ h. i.at_consumed c taken p)
            (λ h.
              if_both P (credit == 0) (λ h. p1)
                (λ h. send-keep (window (whole credit)) _ (i.at_granted _ credit p1))))
