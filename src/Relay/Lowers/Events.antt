-- ===== src/Relay/Lowers/Events.antt =====
-- Every event but a new circuit, a registration and a new connection lowers the counts.
use tnp.Prelude.{
  ℕ, suc, ◌-◌, ◌/◌, ◌≡◌, refl, Bool, true, false, not, ◌&&◌, if◌then◌else◌, Option, none, some,
  List, [], ◌∷◌, arith, ltb, Result, ok, err,
}
use tnp.Prelude.Counts.{Below-refl}
use tnp.Protocol.CircuitId.{get}
use tnp.Protocol.ErrorCode.{resource_exhausted, target_unreachable}
use tnp.Protocol.Frame.{Frame}
use tnp.Protocol.Overlay.Hello.{decode_relay_hello, encode_relay_hello_ack}
use tnp.Relay.Circuits.{notify_client, notify_both, to_client}
use tnp.Relay.Dispatch.{opened, violated, receive_from_service, Identity, prove_identity, is_ready}
use tnp.Relay.Services.{refuse, recheck}
use tnp.Relay.Sweeping.{
  sweep_circuit, sweep_circuits, sweep_service, sweep_kind, sweep_connection, sweep_connections,
  shed, sweep, enforce_global_buffer, is_past, is_due,
}
use tnp.Relay.State.{Relay, Connection, Environment, Kind, client_kind, service_kind}
use tnp.Relay.Lowers.{
  IsLess, Lowers, Lowers-refl, Lowers-trans, Lowers-if, Lowers-set_connection, Lowers-set_circuit,
  Lowers-count, Lowers-output, Lowers-tables,
}
use tnp.Relay.Lowers.Removal.{
  remove_circuit-Lowers, forward-Lowers, settle_pending-Lowers, fail-Lowers, violation-Lowers,
  unowned-Lowers,
}

-- A record update of a connection that leaves its counts alone.
pub same_counts :
    (c d : Connection)
    → d.pending ≡ c.pending
    → d.per_service ≡ c.per_service
    → d.circuits ≡ c.circuits
    → IsLess c d
same_counts c d p s t = record {
  pending = rw p (Below-refl c.pending);
  shares = λ i. rw s (omega arith);
  capped = λ h. rw t h;
}

pub Lowers-option {ℓ} :
    {A : Type ℓ} {r s : Relay} {f : A → Relay} (o : Option A)
    → Lowers r s
    → ((a : A) → Lowers r (f a))
    → Lowers r (elim o [ none ↦ s | some a ↦ f a ])
Lowers-option none h k = h
Lowers-option (some a) h k = k a

pub Lowers-result {ℓ κ} :
    {E : Type ℓ} {A : Type κ} {r : Relay} {g : E → Relay} {f : A → Relay} (o : Result E A)
    → ((e : E) → Lowers r (g e))
    → ((a : A) → Lowers r (f a))
    → Lowers r (elim o [ err e ↦ g e | ok a ↦ f a ])
Lowers-result (ok a) h k = k a
Lowers-result (err e) h k = h e

pub violated-Lowers : (r : Relay) → Lowers r (violated r)
unfolding violated
violated-Lowers r = Lowers-count _ r

opened-Lowers :
    (env : Environment) (k : ℕ) (raw : List ℕ) (r : Relay) → Lowers r (opened env k raw r)
unfolding opened
opened-Lowers env k raw r = Lowers-trans (Lowers-set_circuit k _ r) (
    Lowers-trans (settle_pending-Lowers _ _)
      (Lowers-trans (Lowers-count _ _) (forward-Lowers env k to_client raw _)))

pub receive_from_service-Lowers :
    (env : Environment) (conn : ℕ) (frame : Frame) (raw : List ℕ) (r : Relay)
    → Lowers r (receive_from_service env conn frame raw r)
unfolding receive_from_service
receive_from_service-Lowers env conn frame raw r =
    let circuit = get (r.connection conn).circuits frame.circuit_id in
    Lowers-if _
      (Lowers-option circuit (violation-Lowers conn r) (λ k. Lowers-if _ (violation-Lowers conn r) (
        Lowers-if _ (Lowers-trans (violated-Lowers r) (remove_circuit-Lowers k notify_both _ _))
          (opened-Lowers env k raw r))))
      (Lowers-if _
        (Lowers-option circuit (unowned-Lowers r)
          (λ k. Lowers-if _ (forward-Lowers env k to_client raw r) (violation-Lowers conn r)))
        (Lowers-if _
          (Lowers-option circuit (unowned-Lowers r)
            (λ k. remove_circuit-Lowers k notify_client _ r))
          (violation-Lowers conn r)))

pub prove_identity-Lowers :
    (identity : Identity) (conn : ℕ) (frame : Frame) (r : Relay)
    → Lowers r (prove_identity identity conn frame r)
unfolding prove_identity
prove_identity-Lowers identity conn frame r =
    let proven =
      Lowers-set_connection conn (record (r.connection conn) { identity_proven = true }) r
        (same_counts (r.connection conn) _ refl refl refl) in
    Lowers-if _ (violation-Lowers conn r) (
      Lowers-result (decode_relay_hello frame.payload) (λ e. fail-Lowers conn _ _ r)
        (λ nonce.
          Lowers-result
            (encode_relay_hello_ack identity.public_key (identity.sign_relay_identity nonce))
            (λ e. Lowers-trans proven (fail-Lowers conn _ _ _))
            (λ payload. Lowers-trans proven (Lowers-output _ _))))

pub refuse-Lowers : (conn code : ℕ) (r : Relay) → Lowers r (refuse conn code r)
unfolding refuse
refuse-Lowers conn code r = Lowers-trans (Lowers-count _ r) (fail-Lowers conn _ _ _)

pub recheck-Lowers : (conn : ℕ) (key : Option (List ℕ)) (r : Relay) → Lowers r (recheck conn key r)
unfolding recheck
recheck-Lowers conn key r = Lowers-if _ (Lowers-refl r) (
    Lowers-option key (fail-Lowers conn _ _ r)
      (λ k. Lowers-if _ (Lowers-refl r) (fail-Lowers conn _ _ r)))

sweep_circuit-Lowers : (env : Environment) (k : ℕ) (r : Relay) → Lowers r (sweep_circuit env k r)
unfolding sweep_circuit
sweep_circuit-Lowers env k r =
    let c = r.circuit k in
    Lowers-if (not c.open_circuit && ltb r.limits.create_timeout_ms (env.now - c.created_at))
      (remove_circuit-Lowers k notify_both target_unreachable r)
      (Lowers-if (c.open_circuit && ltb r.limits.circuit_idle_ms (env.now - c.last_activity))
        (Lowers-trans (Lowers-count (λ s. record s { idle_destroys = suc s.idle_destroys }) r)
          (remove_circuit-Lowers k notify_both resource_exhausted _))
        (Lowers-refl r))

sweep_circuits-Lowers :
    (env : Environment) (ks : List ℕ) (r : Relay) → Lowers r (sweep_circuits env ks r)
unfolding sweep_circuits
sweep_circuits-Lowers env [] r = Lowers-refl r
sweep_circuits-Lowers env (k ∷ ks) r =
    Lowers-trans (sweep_circuit-Lowers env k r) (sweep_circuits-Lowers env ks _)

-- The first part of a pair that a test chooses.
pub Lowers-if_pair {ℓ} :
    {A : Type ℓ} {r : Relay} (s t : Relay × A) (b : Bool)
    → Lowers r s.0
    → Lowers r t.0
    → Lowers r (if b then s else t).0
Lowers-if_pair s t true h k = h
Lowers-if_pair s t false h k = k

sweep_service-Lowers :
    (env : Environment) (conn : ℕ) (r : Relay) → Lowers r (sweep_service env conn r).0
unfolding sweep_service
sweep_service-Lowers env conn r =
    let due = is_due (r.connection conn).auth_checked_at r.limits.reauth_interval_ms env.now in
    Lowers-if_pair _ _ (is_past (r.connection conn).auth_not_after (env.now / 1000))
      (fail-Lowers conn _ _ r)
      (Lowers-trans
        (Lowers-if due
          (Lowers-set_connection conn
            (record (r.connection conn) { auth_checked_at = some env.now }) r
            (same_counts (r.connection conn) _ refl refl refl))
          (Lowers-refl r))
        (sweep_circuits-Lowers env _ _))

sweep_kind-Lowers :
    (env : Environment) (conn : ℕ) (kind : Kind) (r : Relay)
    → Lowers r (sweep_kind env conn kind r).0
unfolding sweep_kind
sweep_kind-Lowers env conn client_kind r = Lowers-refl r
sweep_kind-Lowers env conn service_kind r =
    Lowers-if_pair _ _ (is_ready (r.connection conn).state) (sweep_service-Lowers env conn r)
      (Lowers-if_pair _ _ _ (refuse-Lowers conn _ r) (Lowers-refl r))

sweep_connection-Lowers :
    (env : Environment) (conn : ℕ) (r : Relay) → Lowers r (sweep_connection env conn r).0
unfolding sweep_connection
sweep_connection-Lowers env conn r =
    Lowers-if_pair _ _ (r.connection conn).closed (Lowers-refl r) (sweep_kind-Lowers env conn _ r)

sweep_connections-Lowers :
    (env : Environment) (is : List ℕ) (r : Relay) → Lowers r (sweep_connections env is r).0
unfolding sweep_connections
sweep_connections-Lowers env [] r = Lowers-refl r
sweep_connections-Lowers env (i ∷ is) r =
    Lowers-trans (sweep_connection-Lowers env i r) (sweep_connections-Lowers env is _)

shed-Lowers : (sized : List (ℕ × ℕ)) (total : ℕ) (r : Relay) → Lowers r (shed sized total r)
unfolding shed
shed-Lowers [] total r = Lowers-refl r
shed-Lowers ((i, bytes) ∷ rest) total r =
    Lowers-if _ (Lowers-refl r)
      (Lowers-trans (Lowers-count _ r) (Lowers-trans (fail-Lowers i _ _ _) (shed-Lowers rest _ _)))

pub sweep-Lowers : (env : Environment) (r : Relay) → Lowers r (sweep env r).0
unfolding sweep enforce_global_buffer
sweep-Lowers env r =
    Lowers-trans (sweep_connections-Lowers env r.connections r)
      (Lowers-trans (Lowers-if _ (Lowers-refl _) (shed-Lowers _ _ _)) (Lowers-tables _ _ _))
