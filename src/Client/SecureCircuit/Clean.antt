-- ===== src/Client/SecureCircuit/Clean.antt =====
-- packages/client/src/overlay/secure-circuit.ts: when an end of a circuit is clean.
use tnp.Prelude.{
  ℕ, zero, suc, ◌≤◌, ◌<◌, ◌≡◌, refl, true, false, ◌⊎◌, inl, inr, List, All, Bool-cases, arith,
}
use tnp.Protocol.Noise.{Aead}
use tnp.Protocol.Session.{Session}
use tnp.Client.SecureCircuit.{CircuitLink, Role, is_client, new_circuit}
use tnp.Client.SecureCircuit.Receiving.{Operation, run}
use tnp.Client.SecureCircuit.Kept.Histories.{is_reset, run-keep}
use tnp.Client.SecureCircuit.Fin.{FinOpened, run-FinOpened}
use tnp.Client.SecureCircuit.Sound.{destroys}
use tnp.Client.SecureCircuit.Honest.{
  clean_ends, failures, IsHonest, invariant, fin-IsHonest, start-IsHonest,
}

zero_or_more : (n : ℕ) → (n ≡ 0) ⊎ (0 < n)
zero_or_more zero = inl refl
zero_or_more (suc n) = inr (omega arith)

no_fin_yet : (id : ℕ) (role : Role) (state : Session) → (new_circuit id role state).peer_fin ≡ false
unfolding new_circuit
no_fin_yet id role state = refl

-- Whatever a peer, the relay, the connection and an owner that does not reset the stream do, in
-- whatever order, an end of a circuit tells its owner of no clean end, or a frame has arrived that its
-- session, as it was then, opened as the peer's FIN; and it is a client's end, or it sends no more
-- CIRCUIT_DESTROY than it tells its owner failures.
pub run-IsHonest :
    (a : Aead) (id : ℕ) (role : Role) (state : Session) (history : List (CircuitLink × Operation))
    → All (λ x. is_reset x.1 ≡ false) history
    → ((clean_ends (run a history (new_circuit id role state)) ≡ 0)
        ⊎ FinOpened a history (new_circuit id role state))
      × ((is_client role ≡ true)
          ⊎ (destroys (run a history (new_circuit id role state))
              ≤ failures (run a history (new_circuit id role state))))
run-IsHonest a id role state history all =
    let start = new_circuit id role state in
    let honest =
      run-keep a (IsHonest role) (invariant role) (fin-IsHonest role) history (inr all) start
        (start-IsHonest id role state) in
    (
      elim (zero_or_more (clean_ends (run a history start))) [
        | inl none_told ↦ inl none_told
        | inr told ↦ elim (run-FinOpened a history start (honest.clean told)) [
          | inl early ↦ absurd (ground (arith, no_fin_yet id role state))
          | inr f ↦ inr f
        ]
      ],
      elim (Bool-cases (is_client role)) [
        | inl c ↦ inl c
        | inr s ↦ let few = honest.destroyed s in inr (omega (arith, few))
      ],
    )
