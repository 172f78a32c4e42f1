-- ===== src/Relay/Lowers/Removal.antt =====
-- Removing a circuit, forwarding on one and closing a connection lower the counts.
use tnp.Prelude.Texts.{same_text, same_text-eq}
use tnp.Prelude.{
  ℕ, ◌-◌, ◌≤◌, ◌&&◌, ◌==◌, if◌then◌else◌, Option, none, some, List, [], ◌∷◌, arith, Bool-cases, inl,
  inr, ==→eq,
}
use tnp.Prelude.Counts.{decrement-Below, Below-refl}
use tnp.Protocol.CircuitId.{size, drain}
use tnp.Protocol.CircuitId.Table.{delete-size}
use tnp.Relay.Circuits.{
  send_to, delete_from, settle_pending, release_share, tell, Notify, notify_client, notify_service,
  notify_both, remove_circuit, forward, Side, reject, owned_by,
}
use tnp.Relay.Connections.{
  remove_all, deregister, give_up, on_transport_closed, close_connection, fail, unowned, violation,
}
use tnp.Relay.State.{Relay, Connection, Circuit, Environment, set_connection, update}
use tnp.Relay.Lowers.{
  IsLess, Lowers, Lowers-refl, Lowers-trans, Lowers-if, Lowers-set_connection, Lowers-set_circuit,
  Lowers-count, Lowers-output, Lowers-tables, Lowers-decrement, Lowers-addresses,
  Lowers-delete_service,
}

pub send_to-Lowers :
    (to type id : ℕ) (payload : List ℕ) (r : Relay) → Lowers r (send_to to type id payload r)
unfolding send_to
send_to-Lowers to type id payload r =
    Lowers-if (r.connection to).closed (Lowers-refl r) (Lowers-output _ r)

delete_from-Lowers : (i id : ℕ) (r : Relay) → Lowers r (delete_from i id r)
unfolding delete_from
delete_from-Lowers i id r =
    let (smaller, same) = delete-size (r.connection i).circuits id in
    Lowers-set_connection i _ r (record {
      pending = Below-refl (r.connection i).pending;
      shares = λ s. omega arith;
      capped = λ h. omega (arith, smaller, same, h);
    })

pub settle_pending-Lowers : (i : ℕ) (r : Relay) → Lowers r (settle_pending i r)
unfolding settle_pending
settle_pending-Lowers i r = Lowers-set_connection i _ r (record {
  pending = decrement-Below (r.connection i).pending;
  shares = λ s. omega arith;
  capped = λ h. h;
})

update-le : (f : ℕ → ℕ) (i v : ℕ) → v ≤ f i → (j : ℕ) → update f i v j ≤ f j
update-le f i v h j = elim (Bool-cases (i == j)) [
  | inl e ↦ let same = ==→eq i j e in rw e (rw (← same) h)
  | inr e ↦ rw e (omega arith)
]

share-le :
    (f : ℕ → List ℕ → ℕ) (ip i : ℕ) (name other : List ℕ)
    → (if i == ip && same_text name other then f ip name - 1 else f i other) ≤ f i other
share-le f ip i name other = elim (Bool-cases (i == ip)) [
  | inr e ↦ rw e (omega arith)
  | inl e ↦ elim (Bool-cases (same_text name other)) [
    | inr d ↦ rw (e, d) (omega arith)
    | inl d ↦
        let same = ==→eq i ip e in
        let equal = same_text-eq name other d in rw (e, d) (rw (same, equal) (omega arith))
  ]
]

release_share-Lowers : (c : Circuit) (r : Relay) → Lowers r (release_share c r)
unfolding release_share set_connection
release_share-Lowers c r =
    Lowers-trans
      (Lowers-set_connection c.client _ r (record {
        pending = Below-refl (r.connection c.client).pending;
        shares = update-le (r.connection c.client).per_service c.service _ (omega arith);
        capped = λ h. h;
      }))
      (Lowers-addresses _ _ (λ i other. share-le r.ip_service _ i c.name other))

tell-Lowers : (n : Notify) (reason : ℕ) (c : Circuit) (r : Relay) → Lowers r (tell n reason c r)
unfolding tell
tell-Lowers notify_client reason c r = send_to-Lowers _ _ _ _ r
tell-Lowers notify_service reason c r = send_to-Lowers _ _ _ _ r
tell-Lowers notify_both reason c r =
    Lowers-trans (send_to-Lowers _ _ _ _ r) (send_to-Lowers _ _ _ _ _)

pub remove_circuit-Lowers :
    (k : ℕ) (n : Notify) (reason : ℕ) (r : Relay) → Lowers r (remove_circuit k n reason r)
unfolding remove_circuit
remove_circuit-Lowers k n reason r =
    let c = r.circuit k in
    Lowers-if _ (Lowers-refl r) (
      Lowers-trans
        (Lowers-if (owned_by r c.client c.client_id k) (delete_from-Lowers c.client c.client_id r)
          (Lowers-refl r))
        (Lowers-trans
          (Lowers-if (owned_by r c.service c.service_id k)
            (delete_from-Lowers c.service c.service_id _) (Lowers-refl _))
          (Lowers-trans
            (Lowers-if c.open_circuit (Lowers-refl _) (settle_pending-Lowers c.client _))
            (Lowers-trans (Lowers-decrement _)
              (Lowers-trans (release_share-Lowers c _) (tell-Lowers n reason c _))))))

pub forward-Lowers :
    (env : Environment) (k : ℕ) (side : Side) (raw : List ℕ) (r : Relay)
    → Lowers r (forward env k side raw r)
unfolding forward
forward-Lowers env k side raw r = Lowers-if _ (Lowers-refl r) (
    Lowers-if _ (Lowers-trans (Lowers-count _ r) (remove_circuit-Lowers k notify_both _ _)) (
      Lowers-if _ (Lowers-output _ r) (
        Lowers-trans (Lowers-output _ r)
          (Lowers-trans (Lowers-set_circuit k _ _) (Lowers-count _ _)))))

pub reject-Lowers : (conn id code : ℕ) (r : Relay) → Lowers r (reject conn id code r)
unfolding reject
reject-Lowers conn id code r = Lowers-trans (Lowers-count _ r) (send_to-Lowers _ _ _ _ _)

remove_all-Lowers : (conn : ℕ) (ks : List ℕ) (r : Relay) → Lowers r (remove_all conn ks r)
unfolding remove_all
remove_all-Lowers conn [] r = Lowers-refl r
remove_all-Lowers conn (k ∷ ks) r =
    Lowers-trans (remove_circuit-Lowers k _ _ r) (remove_all-Lowers conn ks _)

give_up-Lowers : (conn : ℕ) (name : Option (List ℕ)) (r : Relay) → Lowers r (give_up conn name r)
unfolding give_up
give_up-Lowers conn none r = Lowers-refl r
give_up-Lowers conn (some name) r = Lowers-if _ (Lowers-delete_service name r) (Lowers-refl r)

deregister-Lowers : (conn : ℕ) (r : Relay) → Lowers r (deregister conn r)
unfolding deregister
deregister-Lowers conn r = Lowers-if _ (give_up-Lowers conn _ r) (Lowers-refl r)

drained : (c : Connection) → IsLess c (record c { circuits = (drain c.circuits).1 })
unfolding drain size
drained c = record {
  pending = Below-refl c.pending;
  shares = λ s. omega arith;
  capped = λ h. omega arith;
}

pub on_transport_closed-Lowers : (conn : ℕ) (r : Relay) → Lowers r (on_transport_closed conn r)
unfolding on_transport_closed
on_transport_closed-Lowers conn r = Lowers-if _ (Lowers-refl r) (
    Lowers-trans (Lowers-tables _ _ r) (
      Lowers-trans
        (Lowers-set_connection conn _ _ (record {
          pending = Below-refl (r.connection conn).pending;
          shares = λ s. omega arith;
          capped = λ h. h;
        }))
        (Lowers-trans (deregister-Lowers conn _) (
          Lowers-trans (Lowers-set_connection conn _ _ (drained _)) (remove_all-Lowers conn _ _)))))

pub close_connection-Lowers : (conn code : ℕ) (r : Relay) → Lowers r (close_connection conn code r)
unfolding close_connection
close_connection-Lowers conn code r =
    Lowers-if _ (Lowers-refl r)
      (Lowers-trans (Lowers-output _ r) (on_transport_closed-Lowers conn _))

pub fail-Lowers : (conn code close_code : ℕ) (r : Relay) → Lowers r (fail conn code close_code r)
unfolding fail
fail-Lowers conn code close_code r = Lowers-if _ (Lowers-refl r) (
    Lowers-trans (Lowers-if (code == _) (Lowers-count _ r) (Lowers-refl r))
      (Lowers-trans (Lowers-output _ _) (close_connection-Lowers conn close_code _)))

pub unowned-Lowers : (r : Relay) → Lowers r (unowned r)
unfolding unowned
unowned-Lowers r = Lowers-count _ r

pub violation-Lowers : (conn : ℕ) (r : Relay) → Lowers r (violation conn r)
unfolding violation
violation-Lowers conn r =
    let step : Lowers r _ = Lowers-trans (unowned-Lowers r) (
      Lowers-set_connection conn _ _
        (record { pending = Below-refl _; shares = λ s. omega arith; capped = λ h. h })) in
    Lowers-if _ (Lowers-trans step (fail-Lowers conn _ _ _)) step
