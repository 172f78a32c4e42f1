-- ===== src/Relay/Ips/Bounds.antt =====
-- The table of addresses stays within its bounds.
use tnp.Prelude.{
  ℕ, suc, ◌≤◌, ◌<◌, ◌≡◌, refl, leb, ltb, none, some, [], ◌∷◌, length, All, arith, Bool-cases,
  Option-cases, inl, inr,
}
use tnp.Prelude.Maps.{
  lookup, insert, length-insert_fresh, length-insert_present, All-insert, All-lookup,
}
use tnp.Relay.Limits.{RelayLimits, take}
use tnp.Relay.Ips.{
  IpEntry, IpTable, admit, admit_entry, new_entry, release, allow_create, allow_auth, sweep, settle,
}

-- No more addresses than are tracked, and none with more connections than one may have.
pub record IsTracked (l : RelayLimits) (t : IpTable) : Type 0 where
  pub tracked : length t ≤ l.max_tracked_ips
  pub each : All (λ e. e.1.connections ≤ l.max_connections_per_ip) t

abbrev Few : RelayLimits → IpEntry → Type 0
Few l e = e.connections ≤ l.max_connections_per_ip

-- The entry of an address that is in the table is put back.
replace-IsTracked :
    (l : RelayLimits) (ip : ℕ) (old e : IpEntry) (t : IpTable)
    → lookup ip t ≡ some old
    → Few l e
    → IsTracked l t
    → IsTracked l (insert ip e t)
replace-IsTracked l ip old e t found p v = record {
  tracked = omega (arith, length-insert_present ip e old t found, v.tracked);
  each = All-insert (Few l) ip e t p v.each;
}

insert-IsTracked :
    (l : RelayLimits) (ip : ℕ) (e : IpEntry) (t : IpTable)
    → lookup ip t ≡ none
    → length t < l.max_tracked_ips
    → Few l e
    → IsTracked l t
    → IsTracked l (insert ip e t)
insert-IsTracked l ip e t absent room p v = record {
  tracked = omega (arith, length-insert_fresh ip e t absent);
  each = All-insert (Few l) ip e t p v.each;
}

-- What `admit_entry` puts into the table is one entry, which is within the bound.
admit_entry_lem :
    (l : RelayLimits) (ip now : ℕ) (e : IpEntry) (t : IpTable)
    → Few l e
    → (d : IpEntry) × Few l d × ((admit_entry l ip now e t).1 ≡ insert ip d t)
unfolding admit_entry
admit_entry_lem l ip now e t p = elim (Bool-cases (leb l.max_connections_per_ip e.connections)) [
  | inl full ↦ rw full (e, p, refl)
  | inr room ↦ rw room (elim (Bool-cases (take e.connect now).0) [
    | inl g ↦ rw g (
      record e { connections = suc e.connections; connect = (take e.connect now).1 },
      ground arith,
      refl,
    )
    | inr g ↦ rw g (record e { connect = (take e.connect now).1 }, p, refl)
  ])
]

settle-connections : (now : ℕ) (e : IpEntry) → (settle now e).1.connections ≡ e.connections
unfolding settle
settle-connections now e = ground arith

sweep-IsTracked :
    (l : RelayLimits) (now : ℕ) (t : IpTable)
    → (length (sweep now t) ≤ length t)
      × (All (λ e. e.1.connections ≤ l.max_connections_per_ip) t
          → All (λ e. e.1.connections ≤ l.max_connections_per_ip) (sweep now t))
unfolding sweep
sweep-IsTracked l now [] = (omega arith, λ h. tt)
sweep-IsTracked l now ((ip, e) ∷ t) =
    let (shorter, kept) = sweep-IsTracked l now t in
    elim (Bool-cases (settle now e).0) [
      | inl idle ↦ rw idle (omega arith, λ h. kept h.1)
      | inr live ↦
          rw live (omega arith, λ h. (omega (arith, settle-connections now e, h.0), kept h.1))
    ]

lookup-sweep : (now ip : ℕ) (t : IpTable) → lookup ip t ≡ none → lookup ip (sweep now t) ≡ none
unfolding sweep lookup
lookup-sweep now ip [] h = refl
lookup-sweep now ip ((j, e) ∷ t) h = ground (arith, lookup-sweep now ip t)

swept : (l : RelayLimits) (now : ℕ) (t : IpTable) → IsTracked l t → IsTracked l (sweep now t)
swept l now t v =
    let (shorter, kept) = sweep-IsTracked l now t in
    record { tracked = omega (arith, v.tracked); each = kept v.each }

present-IsTracked :
    (l : RelayLimits) (ip now : ℕ) (e : IpEntry) (t : IpTable)
    → lookup ip t ≡ some e
    → IsTracked l t
    → IsTracked l (admit_entry l ip now e t).1
present-IsTracked l ip now e t found v =
    let (d, p, same) = admit_entry_lem l ip now e t (All-lookup (Few l) ip e t v.each found) in
    rw same (replace-IsTracked l ip e d t found p v)

absent-IsTracked :
    (l : RelayLimits) (ip now : ℕ) (t : IpTable)
    → lookup ip t ≡ none
    → length t < l.max_tracked_ips
    → IsTracked l t
    → IsTracked l (admit_entry l ip now (new_entry l now) t).1
absent-IsTracked l ip now t absent room v =
    let (d, p, same) =
      admit_entry_lem l ip now (new_entry l now) t (unfold new_entry in omega arith) in
    rw same (insert-IsTracked l ip d t absent room p v)

admit-IsTracked :
    (l : RelayLimits) (ip now : ℕ) (t : IpTable) → IsTracked l t → IsTracked l (admit l ip now t).1
unfolding admit
admit-IsTracked l ip now t v = elim (Option-cases (lookup ip t)) [
  | inr (e, found) ↦ rw (admit, found) (present-IsTracked l ip now e t found v)
  | inl absent ↦
      rw (admit, absent)
        (elim (Bool-cases (leb l.max_tracked_ips (length t))) [
          | inr room ↦ rw (room, room) (absent-IsTracked l ip now t absent (ground arith) v)
          | inl full ↦ rw full (elim (Bool-cases (leb l.max_tracked_ips (length (sweep now t)))) [
            | inl still ↦ rw still (swept l now t v)
            | inr room ↦ rw room (
                absent-IsTracked l ip now (sweep now t) (lookup-sweep now ip t absent)
                  (ground arith) (swept l now t v))
          ])
        ])
]

release-IsTracked :
    (l : RelayLimits) (ip : ℕ) (t : IpTable) → IsTracked l t → IsTracked l (release ip t)
unfolding release
release-IsTracked l ip t v = elim (Option-cases (lookup ip t)) [
  | inl absent ↦ rw (release, absent) v
  | inr (e, found) ↦
      rw (release, found)
        (let p : e.connections ≤ l.max_connections_per_ip =
            All-lookup (Few l) ip e t v.each found in
          elim (Bool-cases (ltb 0 e.connections)) [
            | inl some_left ↦ rw some_left (replace-IsTracked l ip e _ t found (omega arith) v)
            | inr none_left ↦ rw none_left v
          ])
]

allow_create-IsTracked :
    (l : RelayLimits) (ip now : ℕ) (t : IpTable)
    → IsTracked l t
    → IsTracked l (allow_create ip now t).1
unfolding allow_create
allow_create-IsTracked l ip now t v = elim (Option-cases (lookup ip t)) [
  | inl absent ↦ rw (allow_create, absent) v
  | inr (e, found) ↦
      rw (allow_create, found)
        (replace-IsTracked l ip e _ t found (All-lookup (Few l) ip e t v.each found) v)
]

allow_auth-IsTracked :
    (l : RelayLimits) (ip now : ℕ) (t : IpTable)
    → IsTracked l t
    → IsTracked l (allow_auth ip now t).1
unfolding allow_auth
allow_auth-IsTracked l ip now t v = elim (Option-cases (lookup ip t)) [
  | inl absent ↦ rw (allow_auth, absent) v
  | inr (e, found) ↦
      rw (allow_auth, found)
        (replace-IsTracked l ip e _ t found (All-lookup (Few l) ip e t v.each found) v)
]

-- Every method of the tracker keeps the table within its bounds, whatever address it is called for
-- and whenever: a connection that is admitted, one that ends, a circuit, a proof and a sweep.
pub operations-IsTracked :
    (l : RelayLimits) (ip now : ℕ) (t : IpTable)
    → IsTracked l t
    → IsTracked l (admit l ip now t).1
      × IsTracked l (release ip t)
      × IsTracked l (allow_create ip now t).1
      × IsTracked l (allow_auth ip now t).1
      × IsTracked l (sweep now t)
operations-IsTracked l ip now t v = (
  admit-IsTracked l ip now t v,
  release-IsTracked l ip t v,
  allow_create-IsTracked l ip now t v,
  allow_auth-IsTracked l ip now t v,
  swept l now t v,
)
