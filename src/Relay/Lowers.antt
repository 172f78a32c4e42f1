-- ===== src/Relay/Lowers.antt =====
-- Operations that make no count of the relay larger.
pub mod Removal
pub mod Events
use tnp.Prelude.{
  ℕ, suc, ◌+◌, ◌-◌, ◌≤◌, ◌≡◌, refl, ap, ◌∙◌, Bool, true, false, ◌&&◌, ◌==◌, if◌then◌else◌, Option,
  none, some, List, [], ◌∷◌, length, arith, Bool-cases, Option-cases, inl, inr, ==→eq,
}
use tnp.Prelude.Counts.{ℤ, Below, Below-refl, Below-trans, decrement, decrement-Below}
use mathlib.Core.Path.{subst}
use tnp.Protocol.CircuitId.{CircuitTable, size, delete, drain}
use tnp.Protocol.CircuitId.Table.{delete-size}
use tnp.Relay.State.{
  Relay, Connection, Circuit, Counters, Output, set_connection, set_circuit, count, output, update,
  delete_service, find_service,
}
use tnp.Relay.Ips.{IpTable}

-- A connection with counts that are no larger; a table within its cap is within it still.
pub record IsLess (c d : Connection) : Type 0 where
  pub pending : Below d.pending c.pending
  pub shares : (s : ℕ) → d.per_service s ≤ c.per_service s
  pub capped : size c.circuits ≤ c.circuits.max_circuits → size d.circuits ≤ d.circuits.max_circuits

pub record Lowers (r s : Relay) : Type 0 where
  pub limits : s.limits ≡ r.limits
  pub counted : Below s.circuit_count r.circuit_count
  pub each : (i : ℕ) → IsLess (r.connection i) (s.connection i)
  pub addresses : (ip : ℕ) (name : List ℕ) → s.ip_service ip name ≤ r.ip_service ip name
  pub served : length s.services ≤ length r.services

pub IsLess-refl : (c : Connection) → IsLess c c
IsLess-refl c = record {
  pending = Below-refl c.pending;
  shares = λ s. omega arith;
  capped = λ h. h;
}

pub Lowers-refl : (r : Relay) → Lowers r r
Lowers-refl r = record {
  limits = refl;
  counted = Below-refl r.circuit_count;
  each = λ i. IsLess-refl (r.connection i);
  addresses = λ ip name. omega arith;
  served = omega arith;
}

IsLess-trans : (c d e : Connection) → IsLess c d → IsLess d e → IsLess c e
IsLess-trans c d e h k = record {
  pending = Below-trans e.pending d.pending c.pending k.pending h.pending;
  shares = λ s. omega (arith, h.shares s, k.shares s);
  capped = λ p. k.capped (h.capped p);
}

pub Lowers-trans : {r s t : Relay} → Lowers r s → Lowers s t → Lowers r t
Lowers-trans {r} {s} {t} h k = record {
  limits = k.limits ∙ h.limits;
  counted = Below-trans t.circuit_count s.circuit_count r.circuit_count k.counted h.counted;
  each = λ i. IsLess-trans (r.connection i) (s.connection i) (t.connection i) (h.each i) (k.each i);
  addresses = λ ip name. omega (arith, h.addresses ip name, k.addresses ip name);
  served = omega (arith, h.served, k.served);
}

pub Lowers-if : {r s t : Relay} (b : Bool) → Lowers r s → Lowers r t → Lowers r (if b then s else t)
Lowers-if true h k = h
Lowers-if false h k = k

-- A field of one connection changes.
pub Lowers-set_connection :
    (i : ℕ) (c : Connection) (r : Relay)
    → IsLess (r.connection i) c
    → Lowers r (set_connection i c r)
unfolding set_connection
Lowers-set_connection i c r h = record {
  limits = refl;
  counted = Below-refl r.circuit_count;
  each = λ j. elim (Bool-cases (i == j)) [
    | inl e ↦ rw e (subst (λ k. IsLess (r.connection k) c) (==→eq i j e) h)
    | inr e ↦ rw e (IsLess-refl (r.connection j))
  ];
  addresses = λ ip name. omega arith;
  served = omega arith;
}

pub Lowers-set_circuit : (k : ℕ) (c : Circuit) (r : Relay) → Lowers r (set_circuit k c r)
unfolding set_circuit
Lowers-set_circuit k c r = record {
  limits = refl;
  counted = Below-refl r.circuit_count;
  each = λ i. IsLess-refl (r.connection i);
  addresses = λ ip name. omega arith;
  served = omega arith;
}

pub Lowers-count : (f : Counters → Counters) (r : Relay) → Lowers r (count f r)
unfolding count
Lowers-count f r = record {
  limits = refl;
  counted = Below-refl r.circuit_count;
  each = λ i. IsLess-refl (r.connection i);
  addresses = λ ip name. omega arith;
  served = omega arith;
}

pub Lowers-output : (o : Output) (r : Relay) → Lowers r (output o r)
unfolding output
Lowers-output o r = record {
  limits = refl;
  counted = Below-refl r.circuit_count;
  each = λ i. IsLess-refl (r.connection i);
  addresses = λ ip name. omega arith;
  served = omega arith;
}

-- The address table and the list of connections carry none of the counts.
pub Lowers-tables :
    (ips : IpTable) (open_ones : List ℕ) (r : Relay)
    → Lowers r (record r { ips = ips; connections = open_ones })
Lowers-tables ips open_ones r = record {
  limits = refl;
  counted = Below-refl r.circuit_count;
  each = λ i. IsLess-refl (r.connection i);
  addresses = λ ip name. omega arith;
  served = omega arith;
}

pub Lowers-decrement :
    (r : Relay) → Lowers r (record r { circuit_count = decrement r.circuit_count })
Lowers-decrement r = record {
  limits = refl;
  counted = decrement-Below r.circuit_count;
  each = λ i. IsLess-refl (r.connection i);
  addresses = λ ip name. omega arith;
  served = omega arith;
}

pub Lowers-addresses :
    (r : Relay) (share : ℕ → List ℕ → ℕ)
    → ((ip : ℕ) (name : List ℕ) → share ip name ≤ r.ip_service ip name)
    → Lowers r (record r { ip_service = share })
Lowers-addresses r share h = record {
  limits = refl;
  counted = Below-refl r.circuit_count;
  each = λ i. IsLess-refl (r.connection i);
  addresses = h;
  served = omega arith;
}

length-delete_service :
    (name : List ℕ) (m : List (List ℕ × ℕ)) → length (delete_service name m) ≤ length m
unfolding delete_service
length-delete_service name [] = omega arith
length-delete_service name ((other, j) ∷ m) = ground (arith, length-delete_service name m)

pub Lowers-delete_service :
    (name : List ℕ) (r : Relay) → Lowers r (record r { services = delete_service name r.services })
Lowers-delete_service name r = record {
  limits = refl;
  counted = Below-refl r.circuit_count;
  each = λ i. IsLess-refl (r.connection i);
  addresses = λ ip n. omega arith;
  served = length-delete_service name r.services;
}
