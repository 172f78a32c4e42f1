-- ===== src/Relay/Circuits/Draws.antt =====
-- The loop that draws an identifier for the service's side ends.
use tnp.Prelude.{
  ℕ, ◌≡◌, refl, ◌≢◌, ◌⊎◌, inl, inr, Bool, true, false, some, none, List, [], ◌∷◌, ◌++◌, All, arith,
  ◌==◌, Bool-cases, ==→eq,
}
use tnp.Protocol.CircuitId.{generate_circuit_id, id_of_bytes}
use tnp.Relay.Circuits.{free_id}

-- A draw that does not do: it is the reserved identifier, or one that is taken.
abbrev pub IsUseless : (ℕ → Bool) → List ℕ → Type 0
IsUseless taken bytes = (id_of_bytes bytes ≡ 0) ⊎ (taken (id_of_bytes bytes) ≡ true)

draw_of_nonzero :
    (bytes : List ℕ)
    → id_of_bytes bytes ≢ 0
    → generate_circuit_id (bytes ∷ []) ≡ some (id_of_bytes bytes)
unfolding generate_circuit_id
draw_of_nonzero bytes ne = ground arith

draw_of_zero : (bytes : List ℕ) → id_of_bytes bytes ≡ 0 → generate_circuit_id (bytes ∷ []) ≡ none
unfolding generate_circuit_id
draw_of_zero bytes z = ground arith

-- However many draws do not do, the first one that does ends the loop, and its identifier is taken: the
-- service's table has not got it, so no circuit is displaced.
pub free_id-first :
    (taken : ℕ → Bool) (useless : List (List ℕ)) (bytes : List ℕ) (more : List (List ℕ))
    → All (IsUseless taken) useless
    → id_of_bytes bytes ≢ 0
    → taken (id_of_bytes bytes) ≡ false
    → free_id (useless ++ (bytes ∷ more)) taken ≡ some (id_of_bytes bytes)
unfolding free_id
free_id-first taken [] bytes more h ne free = rw (free_id, draw_of_nonzero bytes ne, free) refl
free_id-first taken (bad ∷ useless) bytes more (p, h) ne free =
    let later = free_id-first taken useless bytes more h ne free in
    elim (Bool-cases (id_of_bytes bad == 0)) [
      | inl z ↦ rw (free_id, draw_of_zero bad (==→eq (id_of_bytes bad) 0 z)) later
      | inr z ↦
          let used : taken (id_of_bytes bad) ≡ true = elim p [
            | inl e ↦ absurd (ground arith)
            | inr t ↦ t
          ] in
          rw (free_id, draw_of_nonzero bad (λ e. ground arith), used) later
    ]
