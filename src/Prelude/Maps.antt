-- ===== src/Prelude/Maps.antt =====
-- A JavaScript `Map` with natural-number keys: an association list in insertion order.
use mathlib.Core.Path.{subst}
use tnp.Prelude.Tests.{◌==◌, if◌then◌else◌, Bool-cases, ==→eq}
use tnp.Prelude.Lists.{length, All}
use Prim.Native.Nat.{ℕ, ◌+◌, ◌≤◌}
use mathlib.Core.Path.{◌≡◌, refl}
use mathlib.Core.Logic.{◌≢◌, inl, inr}
use mathlib.Core.Option.{Option, none, some, some_inj}
use mathlib.Core.List.{List, [], ◌∷◌}
use native.Mathlib.Omega.{arith}

module _ {ℓ} {V : Type ℓ} where
  unfoldable pub lookup : ℕ → List (ℕ × V) → Option V
  lookup key [] = none
  lookup key ((j, held) ∷ rest) = if j == key then some held else lookup key rest

  -- `Map.set`: a key that is there keeps its place.
  unfoldable pub insert : ℕ → V → List (ℕ × V) → List (ℕ × V)
  insert key held [] = (key, held) ∷ []
  insert key held ((j, old) ∷ rest) =
      if j == key then (key, held) ∷ rest else (j, old) ∷ insert key held rest

  unfoldable pub erase : ℕ → List (ℕ × V) → List (ℕ × V)
  erase key [] = []
  erase key ((j, old) ∷ rest) = if j == key then rest else (j, old) ∷ erase key rest

  abbrev pub Fresh : ℕ → List (ℕ × V) → Type 0
  Fresh key rest = All (λ e. e.0 ≢ key) rest

  -- No key stands twice.
  abbrev pub Distinct : List (ℕ × V) → Type 0
  Distinct [] = Unit
  Distinct ((key, held) ∷ rest) = Fresh key rest × Distinct rest

  pub lookup-insert :
      (key other : ℕ) (held : V) (rest : List (ℕ × V))
      → lookup other (insert key held rest)
        ≡ (if key == other then some held else lookup other rest)
  unfolding lookup insert
  lookup-insert key other held ((i, old) ∷ rest) = ground (arith, lookup-insert key other held rest)
  lookup-insert key other held [] = refl

  pub lookup_of_Fresh : (key : ℕ) (rest : List (ℕ × V)) → Fresh key rest → lookup key rest ≡ none
  unfolding lookup
  lookup_of_Fresh key [] h = refl
  lookup_of_Fresh key ((j, held) ∷ rest) h = ground (arith, lookup_of_Fresh key rest h.1)

  pub Fresh-of_lookup : (key : ℕ) (rest : List (ℕ × V)) → lookup key rest ≡ none → Fresh key rest
  unfolding lookup
  Fresh-of_lookup key [] h = tt
  Fresh-of_lookup key ((j, held) ∷ rest) h = elim (Bool-cases (j == key)) [
    | inl e ↦ cc (rw e at h)
    | inr e ↦ (λ s. ground arith, Fresh-of_lookup key rest (rw e at h))
  ]

  pub lookup-erase :
      (key j : ℕ) (rest : List (ℕ × V))
      → Distinct rest
      → lookup j (erase key rest) ≡ (if key == j then none else lookup j rest)
  unfolding lookup erase
  lookup-erase key j [] d = ground arith
  lookup-erase key j ((i, old) ∷ rest) d =
      ground (arith, lookup-erase key j rest d.1, lookup_of_Fresh j rest)

  Fresh-insert :
      (key j : ℕ) (held : V) (rest : List (ℕ × V))
      → Fresh j rest
      → key ≢ j
      → Fresh j (insert key held rest)
  unfolding insert
  Fresh-insert key j held [] h ne = (ne, tt)
  Fresh-insert key j held ((i, old) ∷ rest) h ne = elim (Bool-cases (i == key)) [
    | inl e ↦ rw e (ne, h.1)
    | inr e ↦ rw e (h.0, Fresh-insert key j held rest h.1 ne)
  ]

  pub Distinct-insert :
      (key : ℕ) (held : V) (rest : List (ℕ × V)) → Distinct rest → Distinct (insert key held rest)
  unfolding insert
  Distinct-insert key held [] d = (tt, tt)
  Distinct-insert key held ((i, old) ∷ rest) d = elim (Bool-cases (i == key)) [
    | inl e ↦ rw (e, ← ==→eq i key e) d
    | inr e ↦
        rw e
          (Fresh-insert key i held rest d.0 (λ s. ground arith), Distinct-insert key held rest d.1)
  ]

  Fresh-erase : (key j : ℕ) (rest : List (ℕ × V)) → Fresh j rest → Fresh j (erase key rest)
  unfolding erase
  Fresh-erase key j [] h = tt
  Fresh-erase key j ((i, old) ∷ rest) h = elim (Bool-cases (i == key)) [
    | inl e ↦ rw e h.1
    | inr e ↦ rw e (h.0, Fresh-erase key j rest h.1)
  ]

  pub Distinct-erase : (key : ℕ) (rest : List (ℕ × V)) → Distinct rest → Distinct (erase key rest)
  unfolding erase
  Distinct-erase key [] d = tt
  Distinct-erase key ((i, old) ∷ rest) d = elim (Bool-cases (i == key)) [
    | inl e ↦ rw e d.1
    | inr e ↦ rw e (Fresh-erase key i rest d.0, Distinct-erase key rest d.1)
  ]

  pub length-insert_fresh :
      (key : ℕ) (held : V) (rest : List (ℕ × V))
      → lookup key rest ≡ none
      → length (insert key held rest) ≡ length rest + 1
  unfolding insert lookup
  length-insert_fresh key held [] h = omega arith
  length-insert_fresh key held ((i, old) ∷ rest) h =
      ground (arith, length-insert_fresh key held rest)

  pub length-erase : (key : ℕ) (rest : List (ℕ × V)) → length (erase key rest) ≤ length rest
  unfolding erase
  length-erase key [] = omega arith
  length-erase key ((i, old) ∷ rest) = ground (arith, length-erase key rest)

  pub length-insert_present :
      (key : ℕ) (held old : V) (rest : List (ℕ × V))
      → lookup key rest ≡ some old
      → length (insert key held rest) ≡ length rest
  unfolding insert lookup
  length-insert_present key held old [] h = cc
  length-insert_present key held old ((i, other) ∷ rest) h =
      ground (arith, length-insert_present key held old rest)

  -- What holds of every value that is kept, and of a new one.
  pub All-insert {κ} :
      (P : V → Type κ) (key : ℕ) (held : V) (rest : List (ℕ × V))
      → P held
      → All (λ e. P e.1) rest
      → All (λ e. P e.1) (insert key held rest)
  unfolding insert
  All-insert P key held [] p h = (p, tt)
  All-insert P key held ((i, old) ∷ rest) p (q, h) = elim (Bool-cases (i == key)) [
    | inl e ↦ rw e (p, h)
    | inr e ↦ rw e (q, All-insert P key held rest p h)
  ]

  pub All-lookup {κ} :
      (P : V → Type κ) (key : ℕ) (held : V) (rest : List (ℕ × V))
      → All (λ e. P e.1) rest
      → lookup key rest ≡ some held
      → P held
  unfolding lookup
  All-lookup P key held [] h e = cc
  All-lookup P key held ((i, old) ∷ rest) (q, h) e = elim (Bool-cases (i == key)) [
    | inl t ↦ subst P (some_inj.0 (rw t at e)) q
    | inr t ↦ All-lookup P key held rest h (rw t at e)
  ]
