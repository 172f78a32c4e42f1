-- ===== src/Relay/Bounds/Joining.antt =====
-- Who joins and who leaves: connections and registrations stay within the bounds.
use tnp.Prelude.{
  ℕ, ◌+◌, ◌≤◌, ◌≡◌, refl, false, leb, List, [], ◌∷◌, length, arith, Bool-cases, Option-cases, inl,
  inr,
}
use tnp.Protocol.CircuitId.{size, create}
use tnp.Relay.Connections.{admit, answer, new_connection, accept_service, close_all}
use tnp.Relay.Ips
use tnp.Relay.Ips.{allow_auth, Verdict, admitted, rate, per_ip, table_full}
use tnp.Relay.Services.{register, contend, same_key}
use tnp.Relay.State.{
  Relay, Environment, Kind, service_kind, set_connection, set_service, find_service,
}
use tnp.Relay.Lowers.{
  Lowers, Lowers-refl, Lowers-trans, Lowers-tables, Lowers-output, Lowers-set_connection,
}
use tnp.Relay.Lowers.Removal.{close_connection-Lowers}
use tnp.Relay.Lowers.Events.{refuse-Lowers, same_counts}
use tnp.Relay.Bounds.{IsBounded, Lowers-IsBounded, set_connection-IsBounded}
use tnp.Relay.Bounds.{IsBounded-if}

length-set_service :
    (name : List ℕ) (i : ℕ) (m : List (List ℕ × ℕ)) → length (set_service name i m) ≤ length m + 1
unfolding set_service
length-set_service name i [] = omega arith
length-set_service name i ((other, j) ∷ m) = ground (arith, length-set_service name i m)

serve-IsBounded :
    (name : List ℕ) (conn : ℕ) (r : Relay)
    → leb r.limits.max_service_nodes (length r.services) ≡ false
    → IsBounded r
    → IsBounded (record r { services = set_service name conn r.services })
serve-IsBounded name conn r room b = record {
  counted = b.counted;
  each = λ i. record {
    pending = (b.each i).pending;
    shares = (b.each i).shares;
    capped = (b.each i).capped;
  };
  addresses = b.addresses;
  served = ground (arith, length-set_service name conn r.services);
}

register-IsBounded :
    (env : Environment) (conn : ℕ) (name node_key domain_key : List ℕ) (not_after : ℕ) (r : Relay)
    → IsBounded r
    → IsBounded (register env conn name node_key domain_key not_after r)
unfolding register set_connection
register-IsBounded env conn name node_key domain_key not_after r b =
    elim (Bool-cases (leb r.limits.max_service_nodes (length r.services))) [
      | inl e ↦ rw e (Lowers-IsBounded (refuse-Lowers conn _ r) b)
      | inr e ↦ rw e (
          Lowers-IsBounded (Lowers-output _ _) (
            serve-IsBounded name conn _ e (
              Lowers-IsBounded
                (Lowers-set_connection conn _ r (same_counts (r.connection conn) _ refl refl refl))
                b)))
    ]

pub contend-IsBounded :
    (env : Environment) (conn : ℕ) (name node_key domain_key : List ℕ) (not_after : ℕ) (r : Relay)
    → IsBounded r
    → IsBounded (contend env conn name node_key domain_key not_after r)
unfolding contend
contend-IsBounded env conn name node_key domain_key not_after r b =
    let registered = register-IsBounded env conn name node_key domain_key not_after in
    elim (Option-cases (find_service name r.services)) [
      | inl e ↦ rw (contend, e) (registered r b)
      | inr (incumbent, e) ↦
          rw (contend, e)
            (IsBounded-if (r.connection incumbent).closed (registered r b) (
              IsBounded-if (same_key (r.connection incumbent).node_key node_key)
                (registered _ (Lowers-IsBounded (close_connection-Lowers incumbent _ r) b))
                (Lowers-IsBounded (refuse-Lowers conn _ r) b)))
    ]

pub new_connection-IsBounded :
    (env : Environment) (kind : Kind) (ip max_circuits : ℕ) (r : Relay)
    → IsBounded r
    → IsBounded (new_connection env kind ip max_circuits r)
unfolding new_connection create size
new_connection-IsBounded env kind ip max_circuits r b =
    set_connection-IsBounded r.next_connection _ _
      (record { pending = omega arith; shares = λ s. omega arith; capped = omega arith })
      (record {
        counted = b.counted;
        each = λ i. record {
          pending = (b.each i).pending;
          shares = (b.each i).shares;
          capped = (b.each i).capped;
        };
        addresses = b.addresses;
        served = b.served;
      })

pub accept_service-IsBounded :
    (env : Environment) (challenge : List ℕ) (ip : ℕ) (r : Relay)
    → IsBounded r
    → IsBounded (accept_service env challenge ip r)
unfolding accept_service
accept_service-IsBounded env challenge ip r b =
    let max = r.limits.max_circuits_per_service in
    let r' = new_connection env service_kind ip max r in
    Lowers-IsBounded
      (Lowers-trans
        (Lowers-set_connection r.next_connection _ r'
          (same_counts (r'.connection r.next_connection) _ refl refl refl))
        (Lowers-output _ _))
      (new_connection-IsBounded env service_kind ip max r b)

answer-IsBounded : (verdict : Verdict) (r : Relay) → IsBounded r → IsBounded (answer verdict r).1
unfolding answer
answer-IsBounded admitted r b = b
answer-IsBounded table_full r b = b
answer-IsBounded rate r b = b
answer-IsBounded per_ip r b = b

pub admit-IsBounded :
    (env : Environment) (ip : ℕ) (r : Relay) → IsBounded r → IsBounded (admit env ip r).1
unfolding admit
admit-IsBounded env ip r b =
    elim (Bool-cases (leb r.limits.max_connections (length r.connections))) [
      | inl e ↦ rw e b
      | inr e ↦ rw e (
          let (verdict, ips) = Ips.admit r.limits ip env.now r.ips in
          answer-IsBounded verdict _ (Lowers-IsBounded (Lowers-tables ips r.connections r) b))
    ]

pub close_all-Lowers : (is : List ℕ) (r : Relay) → Lowers r (close_all is r)
unfolding close_all
close_all-Lowers [] r = Lowers-refl r
close_all-Lowers (i ∷ is) r = Lowers-trans (close_connection-Lowers i _ r) (close_all-Lowers is _)
