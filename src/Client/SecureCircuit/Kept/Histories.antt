-- ===== src/Client/SecureCircuit/Kept/Histories.antt =====
-- packages/client/src/overlay/secure-circuit.ts: what receiving keeps, and with it a history.
use tnp.Prelude.{
  ℕ, ◌+◌, ◌==◌, ◌≡◌, refl, ap, Bool, true, false, not, ◌||◌, ◌&&◌, ltb, List, [], ◌∷◌, length,
  Result, ok, err, value, if_both, All, ◌⊎◌, inl, inr, arith,
}
use tnp.Protocol.Constants.{stream_window_initial}
use tnp.Protocol.FrameType.{circuit_destroy}
use tnp.Protocol.Frame.{Frame, FrameDecodeError}
use tnp.Protocol.Noise.{Aead}
use tnp.Protocol.Overlay.Stream.{
  StreamMessage, open_port, opened, chunk, reset, window, fin, decode_stream_message,
}
use tnp.Protocol.Session.{Thrown, OpenedRecord, plain, close, key_update, open_next}
use tnp.Client.SecureCircuit.{
  SecureCircuit, CircuitLink, on_open, on_opened, on_data, on_end, is_client,
}
use tnp.Client.SecureCircuit.Sending.{write, reset_stream}
use tnp.Client.SecureCircuit.Receiving.{
  handle_first, receive_message, receive_opened, is_record, header_of, receive, Operation, binds,
  pokes, accepts, ends, aborts, is_destroyed, opens, writes, has_consumed, resets, receives,
  perform, run,
}
use tnp.Client.SecureCircuit.Kept.Operations.{
  IsInvariant, is_end, Finished, deliver-keep, tell_writable-keep, fail-keep, bind-keep, poke-keep,
  remote_destroyed-keep, abort-keep, maybe_complete-keep, maybe_close-keep, end-keep, accept-keep,
  open_stream-keep, write_from-keep, consumed-keep,
}

-- A frame from the peer arrives that the session opens as its FIN.
unfoldable pub OpensFin : Aead → Operation → SecureCircuit → Type 0
OpensFin a (receives frame) c =
    (plaintext : List ℕ) × ((open_next a c.state frame.payload (header_of frame)).0
      ≡ ok (plain plaintext))
    × (decode_stream_message plaintext ≡ ok fin)
OpensFin a o c = ⊥

-- The peer's FIN does not break the predicate.
abbrev pub KeptByFin {ℓ} : (SecureCircuit → Type ℓ) → Type ℓ
KeptByFin P = (c : SecureCircuit) → P c → P (record c { peer_fin = true })

module _ {ℓ} (a : Aead) (P : SecureCircuit → Type ℓ) (i : IsInvariant P) (link : CircuitLink) where
  handle_first-keep :
      (first : Bool) (m : StreamMessage) (c : SecureCircuit)
      → (m ≡ fin → KeptByFin P)
      → P c
      → P (handle_first a link first m c)
  unfolding handle_first is_end
  handle_first-keep first (open_port port) c f p =
      if_both P (is_client c.role || not first) (λ h. fail-keep a P i link _ true true c p)
        (λ h. i.at_call c (on_open port) refl p)
  handle_first-keep first opened c f p =
      if_both P (not (is_client c.role) || not first) (λ h. fail-keep a P i link _ true true c p)
        (λ h. tell_writable-keep a P i link _ (i.at_call c on_opened refl p))
  handle_first-keep first (reset code) c f p = fail-keep a P i link _ true false c p
  handle_first-keep first (window amount) c f p =
      if_both P (first && not (is_client c.role)) (λ h. fail-keep a P i link _ true true c p)
        (λ h. tell_writable-keep a P i link _ (i.at_credit c (value amount) p))
  handle_first-keep first (chunk bytes) c f p =
      if_both P (first || c.peer_fin) (λ h. fail-keep a P i link _ true true c p)
        (λ h.
          if_both P (ltb stream_window_initial (c.received_ungranted + length bytes))
            (λ h. fail-keep a P i link _ true true c p)
            (λ h.
              deliver-keep a P i link (on_data bytes) _
                (i.at_received c (c.received_ungranted + length bytes) (ground arith) p)))
  handle_first-keep first fin c f p =
      if_both P (first || c.peer_fin) (λ h. fail-keep a P i link _ true true c p)
        (λ h. maybe_close-keep a P i link _ (deliver-keep a P i link on_end _ (f refl c p)))

  receive_message-keep :
      (r : Result FrameDecodeError StreamMessage) (c : SecureCircuit)
      → (r ≡ ok fin → KeptByFin P)
      → P c
      → P (receive_message a link r c)
  unfolding receive_message
  receive_message-keep (ok m) c f p =
      handle_first-keep (not c.started) m _ (λ e. f (ap ok e)) (i.at_started c p)
  receive_message-keep (err e) c f p = fail-keep a P i link _ true true c p

  receive_opened-keep :
      (r : Result Thrown OpenedRecord) (c : SecureCircuit)
      → ((plaintext : List ℕ)
          → r ≡ ok (plain plaintext)
          → decode_stream_message plaintext ≡ ok fin
          → KeptByFin P)
      → P c
      → P (receive_opened a link r c)
  unfolding receive_opened Finished
  receive_opened-keep (err e) c f p = fail-keep a P i link _ true true c p
  receive_opened-keep (ok key_update) c f p = p
  receive_opened-keep (ok close) c f p =
      let p1 = i.at_peer_close c p in
      if_both P (not c.peer_fin) (λ h. fail-keep a P i link _ true true _ p1)
        (λ h. maybe_complete-keep a P i link (record c { peer_close = true }) (p1, ground arith))
  receive_opened-keep (ok (plain plaintext)) c f p =
      receive_message-keep (decode_stream_message plaintext) c (f plaintext refl) p

  receive-keep :
      (frame : Frame) (c : SecureCircuit)
      → (OpensFin a (receives frame) c → KeptByFin P)
      → P c
      → P (receive a link frame c)
  unfolding receive OpensFin
  receive-keep frame c f p =
      let (answer, s) = open_next a c.state frame.payload (header_of frame) in
      if_both P c.done (λ h. p)
        (λ h.
          if_both P (frame.type == circuit_destroy) (λ h. remote_destroyed-keep a P i link c p)
            (λ h.
              if_both P (not (is_record frame)) (λ h. fail-keep a P i link _ true true c p)
                (λ h.
                  receive_opened-keep answer _ (λ plaintext e d. f (plaintext, e, d))
                    (i.sending.at_session c s p))))

  pub perform-keep :
      (o : Operation)
      → ((code : ℕ) → o ≡ resets code → (c : SecureCircuit) → P c → P (reset_stream a link code c))
      → (c : SecureCircuit) → (OpensFin a o c → KeptByFin P)
      → P c
      → P (perform a link o c)
  unfolding perform write
  perform-keep binds q c f p = bind-keep a P i link c p
  perform-keep pokes q c f p = poke-keep a P i link c p
  perform-keep accepts q c f p = accept-keep a P i link c p
  perform-keep ends q c f p = end-keep a P i link c p
  perform-keep aborts q c f p = abort-keep a P i link c p
  perform-keep is_destroyed q c f p = remote_destroyed-keep a P i link c p
  perform-keep (opens port) q c f p = open_stream-keep a P i link port c p
  perform-keep (writes bytes) q c f p = write_from-keep a P i link (length bytes) bytes c p
  perform-keep (has_consumed n) q c f p = consumed-keep a P i link n c p
  perform-keep (resets code) q c f p = q code refl c p
  perform-keep (receives frame) q c f p = receive-keep frame c f p

unfoldable pub is_reset : Operation → Bool
is_reset (resets code) = true
is_reset o = false

-- What every operation of a history keeps, the history keeps.
pub run-keep {ℓ} :
    (a : Aead) (P : SecureCircuit → Type ℓ)
    → IsInvariant P
    → KeptByFin P
    → (history : List (CircuitLink × Operation))
    → ((link : CircuitLink) (code : ℕ) (c : SecureCircuit) → P c → P (reset_stream a link code c))
      ⊎ All (λ x. is_reset x.1 ≡ false) history
    → (c : SecureCircuit) → P c
    → P (run a history c)
unfolding run is_reset
run-keep a P i f [] q c p = p
run-keep a P i f ((link, o) ∷ rest) (inl q) c p =
    run-keep a P i f rest (inl q) (perform a link o c)
      (perform-keep a P i link o (λ code e. q link code) c (λ o. f) p)
run-keep a P i f ((link, o) ∷ rest) (inr (n, all)) c p =
    run-keep a P i f rest (inr all) (perform a link o c)
      (perform-keep a P i link o (λ code e. absurd (ground arith)) c (λ o. f) p)
