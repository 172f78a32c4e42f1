-- ===== src/Protocol/CircuitId/Table.antt =====
-- The table's invariant, and that it never evicts.
use tnp.Prelude.{
  ℕ, ◌≤◌, ◌<◌, ◌≡◌, refl, ◌≢◌, ◌⊎◌, inl, inr, true, false, Option, none, some, List, [], ◌∷◌, arith,
  Bool-cases, Option-cases, ◌==◌, if◌then◌else◌, ==→eq, ne→==, ap, ◌∙◌,
}
use tnp.Prelude.Maps.{
  lookup, insert, erase, Distinct, lookup-insert, lookup-erase, Distinct-insert, Distinct-erase,
  length-insert_fresh, length-erase,
}
use tnp.Protocol.CircuitId.{CircuitTable, size, at_capacity, get, has, add, delete, drain, is_some}

module _ {ℓ} {T : Type ℓ} where
  -- No identifier stands twice, none is the reserved one, and the cap holds.
  pub record IsTable (t : CircuitTable T) : Type ℓ where
    pub distinct : Distinct t.circuits
    pub unreserved : get t 0 ≡ none
    pub capped : size t ≤ t.max_circuits

  none_of_is_some : (o : Option T) → is_some o ≡ false → o ≡ none
  unfolding is_some
  none_of_is_some none h = refl
  none_of_is_some (some x) h = cc

  abbrev added : CircuitTable T → ℕ → T → CircuitTable T
  added t i c = record t { circuits = insert i c t.circuits }

  -- Why `add` refuses: the reserved identifier, one that is taken, or a full table.
  abbrev pub Refused : CircuitTable T → ℕ → Type 0
  Refused t i = (i ≡ 0) ⊎ ((has t i ≡ true) ⊎ (t.max_circuits ≤ size t))

  -- What lets a circuit in.
  abbrev pub Admitted : CircuitTable T → ℕ → Type ℓ
  Admitted t i = (i ≢ 0) × (get t i ≡ none) × (size t < t.max_circuits)

  add_cases :
      (t : CircuitTable T) (i : ℕ) (c : T)
      → ((add t i c ≡ (false, t)) × Refused t i)
        ⊎ ((add t i c ≡ (true, added t i c)) × Admitted t i)
  unfolding add
  add_cases t i c = elim (Bool-cases (i == 0)) [
    | inl z ↦ inl (rw z, inl (==→eq i 0 z))
    | inr nz ↦ elim (Bool-cases (has t i)) [
      | inl h ↦ inl (rw (nz, h), inr (inl h))
      | inr h ↦ elim (Bool-cases (at_capacity t)) [
        | inl f ↦ inl (rw (nz, h, f), inr (inr (ground arith)))
        | inr f ↦
            inr (rw (nz, h, f), ((λ z. ground arith), none_of_is_some (get t i) h, ground arith))
      ]
    ]
  ]

  added-IsTable :
      (t : CircuitTable T) (i : ℕ) (c : T) → IsTable t → Admitted t i → IsTable (added t i c)
  unfolding get size
  added-IsTable t i c v (ne, new, room) = record {
    distinct = Distinct-insert i c t.circuits v.distinct;
    unreserved = lookup-insert i 0 c t.circuits ∙ rw (ne→== i 0 ne) v.unreserved;
    capped = omega (arith, length-insert_fresh i c t.circuits new);
  }

  pub add-IsTable : (t : CircuitTable T) (i : ℕ) (c : T) → IsTable t → IsTable (add t i c).1
  add-IsTable t i c v = elim (add_cases t i c) [
    | inl (e, _) ↦ rw e v
    | inr (e, a) ↦ rw e (added-IsTable t i c v a)
  ]

  -- `delete` returns what was there and removes it; where nothing was there, nothing changes.
  erase_of_none : (i : ℕ) (m : List (ℕ × T)) → lookup i m ≡ none → erase i m ≡ m
  unfolding lookup erase
  erase_of_none i [] h = refl
  erase_of_none i ((j, c) ∷ m) h = elim (Bool-cases (j == i)) [
    | inl e ↦ cc (rw e at h)
    | inr e ↦ rw e (ap (λ r. (j, c) ∷ r) (erase_of_none i m (rw e at h)))
  ]

  delete_lem :
      (t : CircuitTable T) (i : ℕ)
      → delete t i ≡ (get t i, record t { circuits = erase i t.circuits })
  unfolding delete
  delete_lem t i = elim (Option-cases (lookup i t.circuits)) [
    | inl e ↦ rw (erase_of_none i t.circuits e, e)
    | inr (c, e) ↦ rw e
  ]

  deleted-IsTable :
      (t : CircuitTable T) (i : ℕ)
      → IsTable t
      → IsTable (record t { circuits = erase i t.circuits })
  unfolding get size
  deleted-IsTable t i v = record {
    distinct = Distinct-erase i t.circuits v.distinct;
    unreserved =
        lookup-erase i 0 t.circuits v.distinct
        ∙ elim (Bool-cases (i == 0)) [ inl e ↦ rw e | inr e ↦ rw e v.unreserved ];
    capped = omega (arith, length-erase i t.circuits, v.capped);
  }

  -- The invariant holds of a new table, and every operation keeps it.
  pub operations-IsTable :
      (t : CircuitTable T) (i : ℕ) (c : T)
      → IsTable t
      → IsTable (add t i c).1 × IsTable (delete t i).1 × IsTable (drain t).1
  unfolding drain get size
  operations-IsTable t i c v = (
    add-IsTable t i c v,
    rw (delete_lem t i) (deleted-IsTable t i v),
    record { distinct = tt; unreserved = unfold lookup in refl; capped = omega arith },
  )

  -- `add` never displaces a circuit. It answers true exactly when the identifier is not reserved, is
  -- not taken and the table has room, and then reads give the new circuit at its identifier and what
  -- they gave before at every other; otherwise nothing changes.
  pub get-add :
      (t : CircuitTable T) (i j : ℕ) (c : T)
      → (((add t i c).0 ≡ true)
          × Admitted t i
          × (get (add t i c).1 j ≡ (if i == j then some c else get t j)))
        ⊎ (((add t i c).0 ≡ false) × Refused t i × ((add t i c).1 ≡ t))
  get-add t i j c = elim (add_cases t i c) [
    | inl (e, r) ↦ inr (ap (λ p. p.0) e, r, ap (λ p. p.1) e)
    | inr (e, a) ↦ inl (ap (λ p. p.0) e, a, rw e (unfold get in lookup-insert i j c t.circuits))
  ]

  -- `delete` returns the circuit at the identifier, which is gone afterwards; every other circuit is
  -- where it was. So what `add` let in, `delete` gives back.
  pub get-delete :
      (t : CircuitTable T) (i j : ℕ)
      → IsTable t
      → ((delete t i).0 ≡ get t i) × (get (delete t i).1 j ≡ (if i == j then none else get t j))
  get-delete t i j v =
      rw (delete_lem t i) (refl, unfold get in lookup-erase i j t.circuits v.distinct)

  -- No operation takes a table over its cap.
  pub delete-size :
      (t : CircuitTable T) (i : ℕ)
      → (size (delete t i).1 ≤ size t) × ((delete t i).1.max_circuits ≡ t.max_circuits)
  unfolding size
  delete-size t i = rw (delete_lem t i) (length-erase i t.circuits, refl)

  pub add-size :
      (t : CircuitTable T) (i : ℕ) (c : T)
      → size t ≤ t.max_circuits
      → size (add t i c).1 ≤ (add t i c).1.max_circuits
  unfolding size get
  add-size t i c h = elim (add_cases t i c) [
    | inl (e, r) ↦ rw e h
    | inr (e, (ne, new, room)) ↦ rw e (omega (arith, length-insert_fresh i c t.circuits new))
  ]
