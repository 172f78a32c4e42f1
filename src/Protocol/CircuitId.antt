-- ===== src/Protocol/CircuitId.antt =====
-- packages/protocol/src/circuit-id.ts: identifiers, and the circuits of one connection.
pub mod Draws
pub mod Table
mod Runs
use tnp.Prelude.{
  ℕ, ◌+◌, ◌*◌, ◌==◌, leb, Bool, true, false, Option, none, some, List, [], ◌∷◌, map, length,
  if◌then◌else◌,
}
use tnp.Prelude.Maps.{lookup, insert, erase}
use mathlib.Core.List.{foldl}

abbrev pub reserved_circuit_id : ℕ
reserved_circuit_id = 0

abbrev pub reserved_stream_id : ℕ
reserved_stream_id = 0

-- `id = (id << 8n) | BigInt(byte)`: the two operands have no bit in common, so `|` is `+`.
unfoldable pub id_of_bytes : List ℕ → ℕ
id_of_bytes = foldl (λ id b. id * 256 + b) 0

-- The loop ends at the first draw that is not zero. The draws of the random source are a list;
-- `none` says that they are all used up.
unfoldable pub generate_circuit_id : List (List ℕ) → Option ℕ
generate_circuit_id [] = none
generate_circuit_id (bytes ∷ draws) =
    let again = generate_circuit_id draws in
    let id = id_of_bytes bytes in if id == reserved_circuit_id then again else some id

unfoldable pub generate_stream_id : List ℕ → Option ℕ
generate_stream_id [] = none
generate_stream_id (word ∷ draws) =
    let again = generate_stream_id draws in if word == reserved_stream_id then again else some word

module _ {ℓ} {T : Type ℓ} where
  unfoldable pub is_some : Option T → Bool
  is_some none = false
  is_some (some t) = true

-- `CircuitTable`; a `Map` iterates in insertion order.
pub record CircuitTable {ℓ} (T : Type ℓ) : Type ℓ where
  pub circuits : List (ℕ × T)
  pub max_circuits : ℕ

module _ {ℓ} {T : Type ℓ} where
  unfoldable pub create : ℕ → CircuitTable T
  create max_circuits = record { circuits = []; max_circuits = max_circuits }

  unfoldable pub size : CircuitTable T → ℕ
  size t = length t.circuits

  unfoldable pub at_capacity : CircuitTable T → Bool
  unfolding size
  at_capacity t = leb t.max_circuits (size t)

  unfoldable pub get : CircuitTable T → ℕ → Option T
  get t circuit_id = lookup circuit_id t.circuits

  unfoldable pub has : CircuitTable T → ℕ → Bool
  unfolding get is_some
  has t circuit_id = is_some (get t circuit_id)

  unfoldable pub add : CircuitTable T → ℕ → T → Bool × CircuitTable T
  unfolding has at_capacity
  add t circuit_id circuit =
      if circuit_id == reserved_circuit_id
      then (false, t)
      else if has t circuit_id
      then (false, t)
      else if at_capacity t
      then (false, t)
      else (true, record t { circuits = insert circuit_id circuit t.circuits })

  unfoldable pub delete : CircuitTable T → ℕ → Option T × CircuitTable T
  unfolding get is_some
  delete t circuit_id =
      let circuit = get t circuit_id in
      if is_some circuit
      then (circuit, record t { circuits = erase circuit_id t.circuits })
      else (circuit, t)

  unfoldable pub drain : CircuitTable T → List T × CircuitTable T
  drain t = (map (λ e. e.1) t.circuits, record t { circuits = [] })
