-- ===== src/Client/SecureCircuit/Writing.antt =====
-- packages/client/src/overlay/secure-circuit.ts: the loop of `write`.
use tnp.Prelude.{
  ℕ, zero, suc, ◌≤◌, ◌-◌, ◌≡◌, refl, ◌==◌, ◌||◌, leb, min, true, false, Bool-cases, inl, inr, List,
  length, drop, take, arith, length-drop,
}
use tnp.Protocol.FlowControl.{debit}
use tnp.Protocol.Noise.{Aead}
use tnp.Protocol.Overlay.Stream.{chunk}
use tnp.Client.SecureCircuit.{SecureCircuit, CircuitLink}
use tnp.Client.SecureCircuit.Sending.{send_message, writable, write_from, write}

-- A turn takes at least one byte.
shorter : (l room f : ℕ) → (leb l 0 || room == 0) ≡ false → l ≤ suc f → l - min room l ≤ f
shorter l room f h e = ground arith

module _ (a : Aead) (link : CircuitLink) where
  write_from-enough :
      (f g : ℕ) (bytes : List ℕ) (c : SecureCircuit)
      → length bytes ≤ f
      → length bytes ≤ g
      → write_from a link f bytes c ≡ write_from a link g bytes c
  unfolding write_from
  write_from-enough zero zero bytes c hf hg = refl
  write_from-enough zero (suc g) bytes c hf hg =
      let none_left : (leb (length bytes) 0 || writable link c == 0) ≡ true = ground arith in
      rw none_left refl
  write_from-enough (suc f) zero bytes c hf hg =
      let none_left : (leb (length bytes) 0 || writable link c == 0) ≡ true = ground arith in
      rw none_left refl
  write_from-enough (suc f) (suc g) bytes c hf hg =
      let room = writable link c in
      let n = min room (length bytes) in
      let c1 = record c { send_window = (debit c.send_window n).1 } in
      let c2 = (send_message a link (chunk (take n bytes)) c1).1 in
      elim (Bool-cases (leb (length bytes) 0 || room == 0)) [
        | inl h ↦ rw h refl
        | inr h ↦
            let left_f : length (drop n bytes) ≤ f =
              rw (length-drop n bytes) (shorter (length bytes) room f h hf) in
            let left_g : length (drop n bytes) ≤ g =
              rw (length-drop n bytes) (shorter (length bytes) room g h hg) in
            rw (write_from-enough f g (drop n bytes) c2 left_f left_g) refl
      ]

  -- The loop of `write` ends before its fuel does: with any fuel from the number of bytes on, it
  -- takes the same bytes and leaves the circuit as `write` does.
  pub write_from-write :
      (fuel : ℕ) (bytes : List ℕ) (c : SecureCircuit)
      → length bytes ≤ fuel
      → write_from a link fuel bytes c ≡ write a link bytes c
  unfolding write
  write_from-write fuel bytes c h = write_from-enough fuel (length bytes) bytes c h (omega arith)
