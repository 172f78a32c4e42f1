-- ===== src/Relay/Bounds.antt =====
-- Every bound that the relay promises holds in every state that it can reach.
pub mod Creating
pub mod Joining
pub mod Reached
use tnp.Prelude.{
  Bool, if◌then◌else◌, ℕ, suc, ◌≤◌, ◌≡◌, refl, true, false, List, length, arith, Bool-cases, inl,
  inr, ◌==◌,
}
use tnp.Prelude.Counts.{AtMost, AtMost-Below}
use tnp.Protocol.CircuitId.{size}
use tnp.Relay.State.{Relay, Connection, set_connection}
use tnp.Relay.Lowers.{Lowers}

-- A connection within its bounds: its counts of the circuits that wait for an answer and of those to
-- one service, and the table's cap.
pub record IsWithin (r : Relay) (c : Connection) : Type 0 where
  pub pending : AtMost c.pending r.limits.max_pending_per_client
  pub shares : (s : ℕ) → c.per_service s ≤ r.limits.max_circuits_per_client_per_service
  pub capped : size c.circuits ≤ c.circuits.max_circuits

-- The relay within its bounds: its counts of circuits and of one address's circuits to one service,
-- and its services.
pub record IsBounded (r : Relay) : Type 0 where
  pub counted : AtMost r.circuit_count r.limits.max_circuits
  pub each : (i : ℕ) → IsWithin r (r.connection i)
  pub addresses :
      (ip : ℕ) (name : List ℕ) → r.ip_service ip name ≤ r.limits.max_circuits_per_ip_per_service
  pub served : length r.services ≤ r.limits.max_service_nodes

-- What makes no count larger stays within the bounds.
pub Lowers-IsBounded : {r s : Relay} → Lowers r s → IsBounded r → IsBounded s
Lowers-IsBounded {r} {s} h b = record {
  counted = rw h.limits (AtMost-Below s.circuit_count r.circuit_count _ h.counted b.counted);
  each = λ i. record {
    pending = rw h.limits (
        AtMost-Below (s.connection i).pending (r.connection i).pending _ (h.each i).pending
          (b.each i).pending);
    shares = λ t. rw h.limits (omega (arith, (h.each i).shares t, (b.each i).shares t));
    capped = (h.each i).capped ((b.each i).capped);
  };
  addresses = λ ip name. rw h.limits (omega (arith, h.addresses ip name, b.addresses ip name));
  served = rw h.limits (omega (arith, h.served, b.served));
}

-- A connection that is within the bounds takes the place of another.
pub set_connection-IsBounded :
    (i : ℕ) (c : Connection) (r : Relay)
    → IsWithin r c
    → IsBounded r
    → IsBounded (set_connection i c r)
unfolding set_connection
set_connection-IsBounded i c r w b = record {
  counted = b.counted;
  each = λ j. elim (Bool-cases (i == j)) [
    | inl e ↦ rw e (record { pending = w.pending; shares = w.shares; capped = w.capped })
    | inr e ↦ rw e (record {
      pending = (b.each j).pending;
      shares = (b.each j).shares;
      capped = (b.each j).capped;
    })
  ];
  addresses = b.addresses;
  served = b.served;
}

pub IsBounded-if :
    {r s : Relay} (b : Bool) → IsBounded r → IsBounded s → IsBounded (if b then r else s)
IsBounded-if true h k = h
IsBounded-if false h k = k
