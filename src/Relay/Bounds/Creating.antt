-- ===== src/Relay/Bounds/Creating.antt =====
-- A new circuit, a new connection and a new registration stay within the bounds.
use tnp.Prelude.Texts.{same_text}
use tnp.Prelude.{
  ℕ, suc, ◌<◌, ◌≡◌, refl, false, ◌&&◌, ◌==◌, if◌then◌else◌, none, List, arith, Bool-cases,
  Option-cases, inl, inr, Result-cases,
}
use tnp.Prelude.Counts.{at_least, increment, increment-AtMost, at_least-Below, Below-refl}
use tnp.Protocol.CircuitId.{add, has}
use tnp.Protocol.CircuitId.Table.{add-size}
use tnp.Protocol.Frame.{Frame}
use tnp.Protocol.Overlay.Circuit.{decode_circuit_create}
use tnp.Relay.Circuits.{
  open_pending, place_circuit, share_refusal, is_full, admit_circuit, live_service, free_id,
}
use tnp.Relay.Ips.{IpTable, allow_create}
use tnp.Relay.State.{Relay, Connection, Environment, set_connection, update}
use tnp.Relay.Lowers.{
  IsLess-refl, Lowers, Lowers-trans, Lowers-set_connection, Lowers-set_circuit, Lowers-count,
  Lowers-tables,
}
use tnp.Relay.Lowers.Removal.{send_to-Lowers, reject-Lowers}
use tnp.Relay.Bounds.{IsWithin, IsBounded, Lowers-IsBounded, set_connection-IsBounded}

-- The guards that a new circuit has passed.
pub record IsFree (conn service : ℕ) (name : List ℕ) (r : Relay) : Type 0 where
  pub pending : at_least (r.connection conn).pending r.limits.max_pending_per_client ≡ false
  pub counted : at_least r.circuit_count r.limits.max_circuits ≡ false
  pub share : (r.connection conn).per_service service < r.limits.max_circuits_per_client_per_service
  pub address : r.ip_service (r.connection conn).ip name < r.limits.max_circuits_per_ip_per_service

-- Adding to a connection's table changes no count.
Lowers-add :
    (i id k : ℕ) (r : Relay)
    → Lowers r (
        set_connection i
          (record (r.connection i) { circuits = (add (r.connection i).circuits id k).1 })
          r)
Lowers-add i id k r = Lowers-set_connection i _ r (record {
  pending = Below-refl (r.connection i).pending;
  shares = λ s. omega arith;
  capped = add-size (r.connection i).circuits id k;
})

-- The connection takes one more circuit that waits.
waiting : (service : ℕ) → Connection → Connection
waiting service c = record c {
  pending = increment c.pending;
  per_service = update c.per_service service (suc (c.per_service service));
}

waiting-IsWithin :
    (service : ℕ) (c : Connection) (r : Relay)
    → at_least c.pending r.limits.max_pending_per_client ≡ false
    → c.per_service service < r.limits.max_circuits_per_client_per_service
    → IsWithin r c
    → IsWithin r (waiting service c)
unfolding waiting
waiting-IsWithin service c r p s w = record {
  pending = increment-AtMost c.pending _ p;
  shares = λ t. elim (Bool-cases (service == t)) [
    | inl e ↦ rw e (omega arith)
    | inr e ↦ rw e (w.shares t)
  ];
  capped = w.capped;
}

-- The counts of the relay take it too.
abbrev taken : (ip : ℕ) → List ℕ → Relay → Relay
taken ip name r = record r {
  ip_service = λ i other.
      if i == ip && same_text name other then suc (r.ip_service ip name) else r.ip_service i other;
  circuit_count = increment r.circuit_count;
}

taken-IsBounded :
    (ip : ℕ) (name : List ℕ) (r : Relay)
    → at_least r.circuit_count r.limits.max_circuits ≡ false
    → r.ip_service ip name < r.limits.max_circuits_per_ip_per_service
    → IsBounded r
    → IsBounded (taken ip name r)
taken-IsBounded ip name r c a b = record {
  counted = increment-AtMost r.circuit_count _ c;
  each = λ i. record {
    pending = (b.each i).pending;
    shares = (b.each i).shares;
    capped = (b.each i).capped;
  };
  addresses = λ i other. elim (Bool-cases (i == ip && same_text name other)) [
    | inl e ↦ rw e (omega arith)
    | inr e ↦ rw e (b.addresses i other)
  ];
  served = b.served;
}

-- What was free is free after counts went down.
lower_count :
    (r s : Relay)
    → Lowers r s
    → at_least r.circuit_count r.limits.max_circuits ≡ false
    → at_least s.circuit_count s.limits.max_circuits ≡ false
lower_count r s h c = rw h.limits (at_least-Below s.circuit_count r.circuit_count _ h.counted c)

lower_pending :
    (i : ℕ) (r s : Relay)
    → Lowers r s
    → at_least (r.connection i).pending r.limits.max_pending_per_client ≡ false
    → at_least (s.connection i).pending s.limits.max_pending_per_client ≡ false
lower_pending i r s h c =
    rw h.limits
      (at_least-Below (s.connection i).pending (r.connection i).pending _ (h.each i).pending c)

-- The last part of `open_pending`, on a state whose counts are no larger than before the tables took
-- the circuit.
taken-waiting :
    (conn service ip : ℕ) (name : List ℕ) (r s : Relay)
    → Lowers r s
    → IsFree conn service name r
    → r.ip_service ip name < r.limits.max_circuits_per_ip_per_service
    → IsBounded s
    → IsBounded (taken ip name (set_connection conn (waiting service (s.connection conn)) s))
unfolding set_connection
taken-waiting conn service ip name r s h free room b =
    taken-IsBounded ip name _ (lower_count r s h free.counted)
      (rw h.limits (omega (arith, h.addresses ip name)))
      (set_connection-IsBounded conn _ s
        (waiting-IsWithin service (s.connection conn) s (lower_pending conn r s h free.pending)
          (rw h.limits (omega (arith, (h.each conn).shares service, free.share))) (b.each conn))
        b)

Lowers-new_circuit : (k : ℕ) (r : Relay) → Lowers r (record r { next_circuit = k })
Lowers-new_circuit k r = record {
  limits = refl;
  counted = Below-refl r.circuit_count;
  each = λ i. IsLess-refl (r.connection i);
  addresses = λ ip name. omega arith;
  served = omega arith;
}

open_pending-IsBounded :
    (env : Environment) (conn id service service_id : ℕ) (name payload : List ℕ) (r : Relay)
    → IsFree conn service name r
    → IsBounded r
    → IsBounded (open_pending env conn id service service_id name payload r)
unfolding open_pending waiting
open_pending-IsBounded env conn id service service_id name payload r free b =
    let lower = Lowers-trans (Lowers-new_circuit (suc r.next_circuit) r) (
      Lowers-trans (Lowers-set_circuit r.next_circuit _ _) (
        Lowers-trans (Lowers-add conn id r.next_circuit _)
          (Lowers-add service service_id r.next_circuit _))) in
    Lowers-IsBounded (send_to-Lowers service _ service_id payload _) (
      taken-waiting conn service (r.connection conn).ip name r _ lower free free.address
        (Lowers-IsBounded lower b))

share_refusal-none :
    (conn service : ℕ) (name : List ℕ) (r : Relay)
    → share_refusal conn service name r ≡ none
    → ((r.connection conn).per_service service < r.limits.max_circuits_per_client_per_service)
      × (r.ip_service (r.connection conn).ip name < r.limits.max_circuits_per_ip_per_service)
unfolding share_refusal
share_refusal-none conn service name r e = (ground arith, ground arith)

is_full-false :
    (conn : ℕ) (r : Relay)
    → is_full conn r ≡ false
    → (at_least (r.connection conn).pending r.limits.max_pending_per_client ≡ false)
      × (at_least r.circuit_count r.limits.max_circuits ≡ false)
unfolding is_full
is_full-false conn r e = (ground arith, ground arith)

place_circuit-IsBounded :
    (env : Environment) (draws : List (List ℕ)) (conn id service : ℕ) (name payload : List ℕ)
    (r : Relay)
    → is_full conn r ≡ false
    → IsBounded r
    → IsBounded (place_circuit env draws conn id service name payload r)
unfolding place_circuit
place_circuit-IsBounded env draws conn id service name payload r room b =
    elim (Option-cases (share_refusal conn service name r)) [
      | inr (code, e) ↦ rw (place_circuit, e) (Lowers-IsBounded (reject-Lowers conn id code r) b)
      | inl e ↦
          rw (place_circuit, e)
            (elim (Option-cases (free_id draws (λ i. has (r.connection service).circuits i))) [
              | inl d ↦ rw d b
              | inr (service_id, d) ↦
                  let (pending, counted) = is_full-false conn r room in
                  let (share, address) = share_refusal-none conn service name r e in
                  rw d (
                    open_pending-IsBounded env conn id service service_id name payload r
                      (record {
                        pending = pending;
                        counted = counted;
                        share = share;
                        address = address;
                      })
                      b)
            ])
    ]

Lowers-ips : (ips : IpTable) (r : Relay) → Lowers r (record r { ips = ips })
Lowers-ips ips r = Lowers-tables ips r.connections r

pub admit_circuit-IsBounded :
    (env : Environment) (draws : List (List ℕ)) (conn : ℕ) (frame : Frame) (r : Relay)
    → IsBounded r
    → IsBounded (admit_circuit env draws conn frame r)
unfolding admit_circuit
admit_circuit-IsBounded env draws conn frame r b =
    let (granted, ips) = allow_create (r.connection conn).ip env.now r.ips in
    let r' : Relay = record r { ips = ips } in
    let b' : IsBounded r' = Lowers-IsBounded (Lowers-ips ips r) b in
    elim (Bool-cases granted) [
      | inr e ↦ rw e (Lowers-IsBounded (reject-Lowers conn _ _ r') b')
      | inl e ↦ rw e (elim (Bool-cases (is_full conn r')) [
        | inl f ↦ rw f (Lowers-IsBounded (reject-Lowers conn _ _ r') b')
        | inr f ↦ rw f (elim (Result-cases (decode_circuit_create frame.payload)) [
          | inr (x, g) ↦
              rw g
                (Lowers-IsBounded (Lowers-trans (Lowers-count _ r') (reject-Lowers conn _ _ _)) b')
          | inl (request, g) ↦ rw g (elim (Option-cases (live_service request.name r')) [
            | inl l ↦ rw l (Lowers-IsBounded (reject-Lowers conn _ _ r') b')
            | inr (service, l) ↦ rw l (place_circuit-IsBounded env draws conn _ service _ _ r' f b')
          ])
        ])
      ])
    ]
