-- ===== src/Relay/Circuits.antt =====
-- packages/relay-core/src/core.ts: circuits are created, carry frames and are removed.
pub mod Readdressing
pub mod Draws
use tnp.Prelude.Texts.{same_text}
use tnp.Prelude.{
  ℕ, suc, ◌+◌, ◌-◌, Bool, false, not, ◌&&◌, ◌||◌, ltb, leb, ◌==◌, if◌then◌else◌, Option, none, some,
  List, [], ◌∷◌, ◌++◌, length, take, drop, ok, err, whole,
}
use tnp.Prelude.Bytes.{u16_bytes, u64_bytes}
use tnp.Prelude.Counts.{increment, decrement, at_least}
use tnp.Protocol.CircuitId.{get, delete, has, add, at_capacity, generate_circuit_id}
use tnp.Protocol.ErrorCode.{
  rate_limit, circuit_limit, protocol_violation, circuit_rejected, resource_exhausted,
}
use tnp.Protocol.Frame.{Frame, EncodeOptions}
use tnp.Protocol.FrameType.{circuit_create, circuit_destroy}
use tnp.Protocol.Overlay.Circuit.{decode_circuit_create}
use tnp.Relay.Ips.{allow_create}
use tnp.Relay.State.{
  Relay, Circuit, Environment, send, forwarded, set_connection, set_circuit, count, output,
  find_service, update,
}

abbrev message : (type circuit_id : ℕ) → List ℕ → EncodeOptions
message type circuit_id payload = record {
  type = type;
  circuit_id = some (whole circuit_id);
  stream_id = none;
  flags = none;
  payload = some payload;
}

unfoldable pub send_to : (to type circuit_id : ℕ) → List ℕ → Relay → Relay
send_to to type circuit_id payload r =
    if (r.connection to).closed then r else output (send to (message type circuit_id payload)) r

-- `notify`: whom `removeCircuit` tells.
pub data Notify : Type 0 where
  notify_client notify_service notify_both : Notify

-- Is the circuit the one that the connection's table holds at the identifier?
unfoldable pub owned_by : Relay → (connection circuit_id circuit : ℕ) → Bool
owned_by r connection circuit_id circuit =
    elim (get (r.connection connection).circuits circuit_id) [
      | none ↦ false
      | some k ↦ k == circuit
    ]

unfoldable pub delete_from : (connection circuit_id : ℕ) → Relay → Relay
delete_from connection circuit_id r =
    let c = r.connection connection in
    set_connection connection (record c { circuits = (delete c.circuits circuit_id).1 }) r

-- `circuit.client.pending--`
unfoldable pub settle_pending : ℕ → Relay → Relay
settle_pending client r =
    let c = r.connection client in
    set_connection client (record c { pending = decrement c.pending }) r

-- The two per-service counts go down; an entry that reaches zero is deleted.
unfoldable pub release_share : Circuit → Relay → Relay
release_share circuit r =
    let c = r.connection circuit.client in
    let held = c.per_service circuit.service - 1 in
    let ip = c.ip in
    let r' =
      set_connection circuit.client
        (record c { per_service = update c.per_service circuit.service held }) r in
    record r' {
      ip_service = λ i name.
          if i == ip && same_text circuit.name name
          then r.ip_service ip circuit.name - 1
          else r.ip_service i name;
    }

unfoldable pub tell : Notify → ℕ → Circuit → Relay → Relay
tell notify reason circuit r =
    let to_client = send_to circuit.client circuit_destroy circuit.client_id (u16_bytes reason) in
    let to_service =
      send_to circuit.service circuit_destroy circuit.service_id (u16_bytes reason) in
    elim notify [
      | notify_client ↦ to_client r
      | notify_service ↦ to_service r
      | notify_both ↦ to_service (to_client r)
    ]

unfoldable pub remove_circuit : ℕ → Notify → ℕ → Relay → Relay
remove_circuit k notify reason r =
    let circuit = r.circuit k in
    let by_client = owned_by r circuit.client circuit.client_id k in
    let by_service = owned_by r circuit.service circuit.service_id k in
    if not by_client && not by_service
    then r
    else let r1 = if by_client then delete_from circuit.client circuit.client_id r else r in
      let r2 = if by_service then delete_from circuit.service circuit.service_id r1 else r1 in
      let r3 = if circuit.open_circuit then r2 else settle_pending circuit.client r2 in
      let r4 = release_share circuit (record r3 { circuit_count = decrement r3.circuit_count }) in
      tell notify reason circuit r4

pub data Side : Type 0 where
  to_client to_service : Side

abbrev side_connection : Side → Circuit → ℕ
side_connection to_client c = c.client
side_connection to_service c = c.service

abbrev side_id : Side → Circuit → ℕ
side_id to_client c = c.client_id
side_id to_service c = c.service_id

abbrev side_limit : Side → Relay → ℕ
side_limit to_client r = r.limits.client_buffer_limit
side_limit to_service r = r.limits.service_buffer_limit

-- `setBigUint64(4, destId)` on a copy of the frame.
unfoldable pub readdressed : List ℕ → ℕ → List ℕ
readdressed raw circuit_id = take 4 raw ++ (u64_bytes circuit_id ++ drop 12 raw)

unfoldable pub forward : Environment → ℕ → Side → List ℕ → Relay → Relay
forward env k side raw r =
    let circuit = r.circuit k in
    let dest = side_connection side circuit in
    if (r.connection dest).closed
    then r
    else if ltb (side_limit side r) (env.buffered dest + length raw)
    then remove_circuit k notify_both resource_exhausted
        (count (λ s. record s { backpressure_destroys = suc s.backpressure_destroys }) r)
    else let out = readdressed raw (side_id side circuit) in
      let sent = output (forwarded dest out) r in
      if env.going dest
      then sent
      else count
          (λ s. record s {
            frames_forwarded = suc s.frames_forwarded;
            bytes_forwarded = s.bytes_forwarded + length out;
          })
          (set_circuit k (record circuit { last_activity = env.now }) sent)

-- `generateCircuitId` until the service's table has not got the identifier; the draws are a list.
unfoldable pub free_id : List (List ℕ) → (ℕ → Bool) → Option ℕ
free_id [] taken = none
free_id (bytes ∷ draws) taken =
    let again = free_id draws taken in
    elim (generate_circuit_id (bytes ∷ [])) [
      | none ↦ again
      | some id ↦ if taken id then again else some id
    ]

unfoldable pub reject : (conn id code : ℕ) → Relay → Relay
reject conn id code r =
    send_to conn circuit_destroy id (u16_bytes code)
      (count (λ s. record s { circuits_rejected = suc s.circuits_rejected }) r)

-- Both tables and the counts take the new circuit, and the service hears of it.
unfoldable pub open_pending :
    Environment → (conn id service service_id : ℕ) → (name payload : List ℕ) → Relay → Relay
open_pending env conn id service service_id name payload r =
    let k = r.next_circuit in
    let ip = (r.connection conn).ip in
    let circuit : Circuit = record {
      client = conn;
      client_id = id;
      service = service;
      service_id = service_id;
      open_circuit = false;
      created_at = env.now;
      last_activity = env.now;
      name = name;
    } in
    let r1 = set_circuit k circuit (record r { next_circuit = suc k }) in
    let c1 = r1.connection conn in
    let r2 = set_connection conn (record c1 { circuits = (add c1.circuits id k).1 }) r1 in
    let s2 = r2.connection service in
    let r3 =
      set_connection service (record s2 { circuits = (add s2.circuits service_id k).1 }) r2 in
    let c3 = r3.connection conn in
    let r4 =
      set_connection conn
        (record c3 {
          pending = increment c3.pending;
          per_service = update c3.per_service service (suc (c3.per_service service));
        })
        r3 in
    let r5 = record r4 {
      ip_service = λ i other.
          if i == ip && same_text name other
          then suc (r4.ip_service ip name)
          else r4.ip_service i other;
      circuit_count = increment r4.circuit_count;
    } in
    send_to service circuit_create service_id payload r5

-- What stands in the way of a circuit to a service, and the code it is rejected with.
unfoldable pub share_refusal : (conn service : ℕ) → List ℕ → Relay → Option ℕ
share_refusal conn service name r =
    let c = r.connection conn in
    if leb r.limits.max_circuits_per_client_per_service (c.per_service service)
      || leb r.limits.max_circuits_per_ip_per_service (r.ip_service c.ip name)
    then some circuit_limit
    else if at_capacity (r.connection service).circuits
    then some resource_exhausted
    else none

-- The capacity that is tested before the payload is read.
unfoldable pub is_full : ℕ → Relay → Bool
is_full conn r =
    let c = r.connection conn in
    at_capacity c.circuits
    || (at_least c.pending r.limits.max_pending_per_client
        || at_least r.circuit_count r.limits.max_circuits)

-- A service that is found and alive.
unfoldable pub live_service : List ℕ → Relay → Option ℕ
live_service name r = elim (find_service name r.services) [
  | none ↦ none
  | some service ↦ if (r.connection service).closed then none else some service
]

unfoldable pub place_circuit :
    Environment → List (List ℕ) → (conn id service : ℕ) → (name payload : List ℕ) → Relay → Relay
place_circuit env draws conn id service name payload r = elim (share_refusal conn service name r) [
  | some code ↦ reject conn id code r
  | none ↦ elim (free_id draws (λ i. has (r.connection service).circuits i)) [
    | none ↦ r
    | some service_id ↦ open_pending env conn id service service_id name payload r
  ]
]

-- `createCircuit` from the rate limit on.
unfoldable pub admit_circuit : Environment → List (List ℕ) → ℕ → Frame → Relay → Relay
admit_circuit env draws conn frame r =
    let id = frame.circuit_id in
    let (granted, ips) = allow_create (r.connection conn).ip env.now r.ips in
    let r' = record r { ips = ips } in
    if not granted
    then reject conn id rate_limit r'
    else if is_full conn r'
    then reject conn id circuit_limit r'
    else elim (decode_circuit_create frame.payload) [
      | err e ↦
          reject conn id protocol_violation
            (count (λ s. record s { protocol_violations = suc s.protocol_violations }) r')
      | ok request ↦ elim (live_service request.name r') [
        | none ↦ reject conn id circuit_rejected r'
        | some service ↦ place_circuit env draws conn id service request.name frame.payload r'
      ]
    ]
