-- ===== src/Protocol/CircuitId/Draws.antt =====
-- The identifier that is drawn.
use tnp.Prelude.{ℕ, ◌^◌, ◌<◌, ◌≡◌, refl, ◌≢◌, some, List, [], ◌∷◌, ◌++◌, arith, length, All}
use tnp.Prelude.Bytes.{IsByte}
use tnp.Protocol.CircuitId.{id_of_bytes, generate_circuit_id}

id_of_bytes-lt : (bytes : List ℕ) → All IsByte bytes → length bytes ≡ 8 → id_of_bytes bytes < 2 ^ 64
unfolding id_of_bytes
id_of_bytes-lt (a ∷ b ∷ c ∷ d ∷ e ∷ f ∷ g ∷ h ∷ []) bs n = omega arith
id_of_bytes-lt bytes bs n = absurd (omega arith)

-- What a draw is worth to the loop.
abbrev pub IsZero : List ℕ → Type 0
IsZero bytes = id_of_bytes bytes ≡ 0

generate_first :
    (zeroes : List (List ℕ)) (bytes : List ℕ) (later : List (List ℕ))
    → All IsZero zeroes
    → id_of_bytes bytes ≢ 0
    → generate_circuit_id (zeroes ++ bytes ∷ later) ≡ some (id_of_bytes bytes)
unfolding generate_circuit_id
generate_first [] bytes later h ne = ground arith
generate_first (z ∷ zeroes) bytes later h ne =
    ground (arith, generate_first zeroes bytes later h.1 ne)

-- However many zeroes are drawn first, the loop ends at the first draw that is not zero and returns
-- its value, whatever comes after: an identifier of 64 bits that is not the reserved one.
pub generate_circuit_id-first :
    (zeroes : List (List ℕ)) (bytes : List ℕ) (later : List (List ℕ))
    → All IsZero zeroes
    → All IsByte bytes
    → length bytes ≡ 8
    → id_of_bytes bytes ≢ 0
    → (id : ℕ) × (generate_circuit_id (zeroes ++ bytes ∷ later) ≡ some id)
      × (id ≡ id_of_bytes bytes)
      × (id ≢ 0)
      × (id < 2 ^ 64)
generate_circuit_id-first zeroes bytes later h b n ne =
    (id_of_bytes bytes, generate_first zeroes bytes later h ne, refl, ne, id_of_bytes-lt bytes b n)
