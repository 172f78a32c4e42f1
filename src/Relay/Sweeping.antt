-- ===== src/Relay/Sweeping.antt =====
-- packages/relay-core/src/core.ts: timeouts, expiry and the memory budget.
use tnp.Prelude.{
  ℕ, suc, ◌+◌, ◌-◌, ◌/◌, Bool, false, not, ◌&&◌, ◌||◌, ltb, leb, ◌==◌, if◌then◌else◌, Option, none,
  some, List, [], ◌∷◌, map,
}
use tnp.Protocol.ErrorCode.{auth_required, auth_expired, target_unreachable, resource_exhausted}
use tnp.Relay.Circuits.{remove_circuit, notify_both}
use tnp.Relay.Connections.{fail, close_policy, close_try_later}
use tnp.Relay.Services.{refuse}
use tnp.Relay.Dispatch.{is_ready}
use tnp.Relay.Ips
use tnp.Relay.State.{Relay, Environment, Kind, client_kind, service_kind, set_connection, count}

-- Subtraction of times: one that lies ahead is below every limit.
unfoldable pub sweep_circuit : Environment → ℕ → Relay → Relay
sweep_circuit env k r =
    let c = r.circuit k in
    if not c.open_circuit && ltb r.limits.create_timeout_ms (env.now - c.created_at)
    then remove_circuit k notify_both target_unreachable r
    else if c.open_circuit && ltb r.limits.circuit_idle_ms (env.now - c.last_activity)
    then remove_circuit k notify_both resource_exhausted
        (count (λ s. record s { idle_destroys = suc s.idle_destroys }) r)
    else r

unfoldable pub sweep_circuits : Environment → List ℕ → Relay → Relay
sweep_circuits env [] r = r
sweep_circuits env (k ∷ ks) r = sweep_circuits env ks (sweep_circuit env k r)

unfoldable pub is_past : Option ℕ → ℕ → Bool
is_past none now = false
is_past (some t) now = leb t now

unfoldable pub is_due : Option ℕ → ℕ → ℕ → Bool
is_due none interval now = false
is_due (some t) interval now = ltb interval (now - t)

-- A registered service node; whether its domain key is to be looked up again comes with it.
unfoldable pub sweep_service : Environment → ℕ → Relay → Relay × Bool
sweep_service env conn r =
    let c = r.connection conn in
    if is_past c.auth_not_after (env.now / 1000)
    then (fail conn auth_expired close_policy r, false)
    else let due = is_due c.auth_checked_at r.limits.reauth_interval_ms env.now in
      let r' =
        if due then set_connection conn (record c { auth_checked_at = some env.now }) r else r in
      (sweep_circuits env (map (λ e. e.1) c.circuits.circuits) r', due)

unfoldable pub sweep_kind : Environment → ℕ → Kind → Relay → Relay × Bool
sweep_kind env conn client_kind r = (r, false)
sweep_kind env conn service_kind r =
    if is_ready (r.connection conn).state
    then sweep_service env conn r
    else if ltb r.limits.handshake_timeout_ms (env.now - (r.connection conn).opened_at)
    then (refuse conn auth_required r, false)
    else (r, false)

unfoldable pub sweep_connection : Environment → ℕ → Relay → Relay × Bool
sweep_connection env conn r =
    let c = r.connection conn in if c.closed then (r, false) else sweep_kind env conn c.kind r

-- The connections in turn, and those whose domain key is to be looked up again.
unfoldable pub sweep_connections : Environment → List ℕ → Relay → Relay × List ℕ
sweep_connections env [] r = (r, [])
sweep_connections env (i ∷ rest) r =
    let (r1, due) = sweep_connection env i r in
    let (r2, others) = sweep_connections env rest r1 in (r2, if due then i ∷ others else others)

-- `sort((a, b) => b[1] - a[1])`, which is stable.
unfoldable pub insert_sized : ℕ × ℕ → List (ℕ × ℕ) → List (ℕ × ℕ)
insert_sized e [] = e ∷ []
insert_sized e (f ∷ rest) =
    let later = insert_sized e rest in if leb f.1 e.1 then e ∷ f ∷ rest else f ∷ later

unfoldable pub sort_sized : List (ℕ × ℕ) → List (ℕ × ℕ)
sort_sized [] = []
sort_sized (e ∷ rest) = insert_sized e (sort_sized rest)

unfoldable pub total_of : List (ℕ × ℕ) → ℕ
total_of [] = 0
total_of (e ∷ rest) = e.1 + total_of rest

-- The connections that hold bytes, with how many.
unfoldable pub sized_of : Environment → List ℕ → Relay → List (ℕ × ℕ)
sized_of env [] r = []
sized_of env (i ∷ rest) r =
    let others = sized_of env rest r in
    if (r.connection i).closed || env.buffered i == 0 then others else (i, env.buffered i) ∷ others

-- The loop, which stops as soon as the total fits.
unfoldable pub shed : List (ℕ × ℕ) → ℕ → Relay → Relay
shed [] total r = r
shed ((i, bytes) ∷ rest) total r =
    if leb total r.limits.global_buffer_limit
    then r
    else shed rest (total - bytes) (
        fail i resource_exhausted close_try_later
          (count (λ s. record s { memory_closes = suc s.memory_closes }) r))

unfoldable pub enforce_global_buffer : Environment → Relay → Relay
enforce_global_buffer env r =
    let sized = sized_of env r.connections r in
    let total = total_of sized in
    if leb total r.limits.global_buffer_limit then r else shed (sort_sized sized) total r

-- With the names whose key is to be looked up again. The cache of names without a key is not modelled.
unfoldable pub sweep : Environment → Relay → Relay × List ℕ
sweep env r =
    let (swept, due) = sweep_connections env r.connections r in
    let within = enforce_global_buffer env swept in
    (record within { ips = Ips.sweep env.now within.ips }, due)
