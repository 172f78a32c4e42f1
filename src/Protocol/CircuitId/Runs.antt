-- ===== src/Protocol/CircuitId/Runs.antt =====
-- Concrete tables and draws, and the theorems at concrete inputs.
use tnp.Prelude.{
  ℕ, ◌≡◌, refl, ◌⊎◌, true, false, none, some, List, [], ◌∷◌, arith, if◌then◌else◌, ◌==◌,
}
use tnp.Prelude.Maps.{lookup, insert}
use tnp.Protocol.CircuitId.{CircuitTable, get, add, delete, drain, size}
use tnp.Protocol.CircuitId.Table.{
  IsTable, Admitted, Refused, operations-IsTable, get-add, get-delete,
}

-- A table of two places, one of them taken.
abbrev table : CircuitTable ℕ
table = record { circuits = (7, 70) ∷ []; max_circuits = 2 }

table_valid : IsTable table
unfolding get size lookup
table_valid = record { distinct = (tt, tt); unreserved = refl; capped = omega arith }

add_taken : add table 7 71 ≡ (false, table)
unfolding add lookup insert
add_taken = refl

operations-IsTable_example :
    IsTable (add table 8 80).1 × IsTable (delete table 8).1 × IsTable (drain table).1
operations-IsTable_example = operations-IsTable table 8 80 table_valid

get-add_example :
    (((add table 8 80).0 ≡ true)
      × Admitted table 8
      × (get (add table 8 80).1 7 ≡ (if 8 == 7 then some 80 else get table 7)))
    ⊎ (((add table 8 80).0 ≡ false) × Refused table 8 × ((add table 8 80).1 ≡ table))
get-add_example = get-add table 8 7 80

get-delete_example :
    ((delete table 7).0 ≡ get table 7)
    × (get (delete table 7).1 7 ≡ (if 7 == 7 then none else get table 7))
get-delete_example = get-delete table 7 7 table_valid

abbrev draw : List ℕ
draw = 0 ∷ 0 ∷ 0 ∷ 0 ∷ 0 ∷ 0 ∷ 1 ∷ 2 ∷ []

abbrev zero_draw : List ℕ
zero_draw = 0 ∷ 0 ∷ 0 ∷ 0 ∷ 0 ∷ 0 ∷ 0 ∷ 0 ∷ []
