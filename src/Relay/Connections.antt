-- ===== src/Relay/Connections.antt =====
-- packages/relay-core/src/core.ts: connections are admitted, fail and close.
use tnp.Prelude.{
  ℕ, suc, Bool, true, false, ltb, leb, ◌==◌, if◌then◌else◌, Option, none, some, List, [], ◌∷◌, ◌++◌,
  length,
}
use tnp.Prelude.Counts.{pos}
use tnp.Protocol.CircuitId.{create, drain}
use tnp.Protocol.ErrorCode.{circuit_unknown, protocol_violation}
use tnp.Protocol.Frame.{EncodeOptions}
use tnp.Protocol.FrameType.{hello}
use tnp.Relay.Ips.{Verdict, admitted, rate, per_ip, table_full, release}
use tnp.Relay.Ips
use tnp.Relay.Circuits.{remove_circuit, Notify, notify_client, notify_service}
use tnp.Relay.State.{
  Relay, Circuit, Environment, send, send_error, close, Kind, client_kind, service_kind,
  awaiting_auth, set_connection, count, output, find_service, delete_service,
}

abbrev pub close_normal : ℕ
close_normal = 1000

abbrev pub close_policy : ℕ
close_policy = 1008

abbrev pub close_too_big : ℕ
close_too_big = 1009

abbrev pub close_try_later : ℕ
close_try_later = 1013

pub data Admission : Type 0 where
  welcome : Admission
  refused : (status : ℕ) → Admission

unfoldable pub answer : Verdict → Relay → Admission × Relay
answer admitted r = (welcome, r)
answer table_full r = (refused 503, r)
answer rate r = (refused 429, r)
answer per_ip r = (refused 429, r)

unfoldable pub admit : Environment → ℕ → Relay → Admission × Relay
admit env ip r =
    if leb r.limits.max_connections (length r.connections)
    then (refused 503, r)
    else let (verdict, ips) = Ips.admit r.limits ip env.now r.ips in
      answer verdict (record r { ips = ips })

unfoldable pub release_admission : ℕ → Relay → Relay
release_admission ip r = record r { ips = release ip r.ips }

unfoldable pub new_connection : Environment → Kind → (ip max_circuits : ℕ) → Relay → Relay
new_connection env kind ip max_circuits r =
    let i = r.next_connection in
    set_connection i
      (record {
        kind = kind;
        ip = ip;
        circuits = create max_circuits;
        pending = pos 0;
        per_service = λ s. 0;
        violations = 0;
        closed = false;
        opened_at = env.now;
        identity_proven = false;
        state = none;
        challenge = none;
        name = none;
        node_key = none;
        domain_key = none;
        auth_not_after = none;
        auth_checked_at = none;
      })
      (record r { next_connection = suc i; connections = r.connections ++ (i ∷ []) })

unfoldable pub accept_client : Environment → ℕ → Relay → Relay
accept_client env ip r = new_connection env client_kind ip r.limits.max_circuits_per_client r

abbrev greeting : List ℕ → EncodeOptions
greeting challenge = record {
  type = hello;
  circuit_id = none;
  stream_id = none;
  flags = none;
  payload = some challenge;
}

-- The challenge is drawn by the random source.
unfoldable pub accept_service : Environment → (challenge : List ℕ) → ℕ → Relay → Relay
accept_service env challenge ip r =
    let i = r.next_connection in
    let r' = new_connection env service_kind ip r.limits.max_circuits_per_service r in
    let c = r'.connection i in
    output (send i (greeting challenge))
      (set_connection i (record c { state = some awaiting_auth; challenge = some challenge }) r')

-- The far side of a drained circuit is told.
unfoldable pub far_side : ℕ → Circuit → Notify
far_side conn circuit = if conn == circuit.client then notify_service else notify_client

unfoldable pub remove_all : ℕ → List ℕ → Relay → Relay
remove_all conn [] r = r
remove_all conn (k ∷ ks) r =
    remove_all conn ks (remove_circuit k (far_side conn (r.circuit k)) circuit_unknown r)

unfoldable pub without : ℕ → List ℕ → List ℕ
without i [] = []
without i (j ∷ js) = let rest = without i js in if i == j then rest else j ∷ rest

unfoldable pub is_service : Kind → Bool
is_service client_kind = false
is_service service_kind = true

unfoldable pub is_held_by : Option ℕ → ℕ → Bool
is_held_by none conn = false
is_held_by (some i) conn = i == conn

unfoldable pub give_up : ℕ → Option (List ℕ) → Relay → Relay
give_up conn none r = r
give_up conn (some name) r =
    if is_held_by (find_service name r.services) conn
    then record r { services = delete_service name r.services }
    else r

-- The name of a service connection is given up, if it is still this connection's.
unfoldable pub deregister : ℕ → Relay → Relay
deregister conn r =
    let c = r.connection conn in if is_service c.kind then give_up conn c.name r else r

unfoldable pub on_transport_closed : ℕ → Relay → Relay
on_transport_closed conn r =
    let c = r.connection conn in
    if c.closed
    then r
    else let r1 =
        set_connection conn (record c { closed = true })
          (record r { connections = without conn r.connections; ips = release c.ip r.ips }) in
      let r2 = deregister conn r1 in
      let c2 = r2.connection conn in
      let (circuits, emptied) = drain c2.circuits in
      remove_all conn circuits (set_connection conn (record c2 { circuits = emptied }) r2)

unfoldable pub close_connection : (conn code : ℕ) → Relay → Relay
close_connection conn code r =
    if (r.connection conn).closed then r else on_transport_closed conn (output (close conn code) r)

unfoldable pub fail : (conn code close_code : ℕ) → Relay → Relay
fail conn code close_code r =
    if (r.connection conn).closed
    then r
    else let counted =
        if code == protocol_violation
        then count (λ s. record s { protocol_violations = suc s.protocol_violations }) r
        else r in
      close_connection conn close_code (output (send_error conn code) counted)

unfoldable pub unowned : Relay → Relay
unowned r = count (λ s. record s { frames_dropped = suc s.frames_dropped }) r

unfoldable pub violation : ℕ → Relay → Relay
violation conn r =
    let dropped = unowned r in
    let c = dropped.connection conn in
    let r' = set_connection conn (record c { violations = suc c.violations }) dropped in
    if ltb r.limits.max_violations (suc c.violations)
    then fail conn protocol_violation close_policy r'
    else r'

-- `shutdown`, over the connections that are open.
unfoldable pub close_all : List ℕ → Relay → Relay
close_all [] r = r
close_all (i ∷ is) r = close_all is (close_connection i close_normal r)

unfoldable pub shutdown : Relay → Relay
shutdown r = close_all r.connections r
