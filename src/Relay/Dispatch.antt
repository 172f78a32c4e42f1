-- ===== src/Relay/Dispatch.antt =====
-- packages/relay-core/src/core.ts: what a message on a connection does.
pub mod Ownership
use tnp.Prelude.{
  ℕ, suc, Bool, true, false, not, ◌&&◌, ◌||◌, ltb, ◌==◌, if◌then◌else◌, Option, none, some, List,
  length, take, ok, err,
}
use tnp.Protocol.CircuitId.{get, has}
use tnp.Protocol.Constants.{max_frame_size, handshake_message_size}
use tnp.Protocol.ErrorCode.{protocol_violation}
use tnp.Protocol.Frame.{Frame, EncodeOptions, decode_frame}
use tnp.Protocol.FrameType.{
  circuit_create, circuit_created, circuit_destroy, stream_data, ping, pong, hello, hello_ack,
}
use tnp.Protocol.Overlay.Hello.{decode_relay_hello, encode_relay_hello_ack}
use tnp.Relay.Circuits.{
  remove_circuit, notify_client, notify_service, notify_both, forward, to_client, to_service,
  admit_circuit, settle_pending,
}
use tnp.Relay.Connections.{fail, violation, unowned, close_policy, close_too_big}
use tnp.Relay.Services.{Trust, ServiceAuth, receive_unauthenticated}
use tnp.Relay.State.{
  Relay, Environment, send, Kind, client_kind, service_kind, ServiceState, ready, set_connection,
  set_circuit, count, output,
}

-- `DESTROY_NORMAL`
abbrev pub destroy_normal : ℕ
destroy_normal = 0

unfoldable pub create_circuit : Environment → List (List ℕ) → ℕ → Frame → Relay → Relay
create_circuit env draws conn frame r =
    if frame.circuit_id == 0 || not (frame.stream_id == 0)
    then violation conn r
    else if has (r.connection conn).circuits frame.circuit_id
    then violation conn r
    else admit_circuit env draws conn frame r

unfoldable pub violated : Relay → Relay
violated r = count (λ s. record s { protocol_violations = suc s.protocol_violations }) r

unfoldable pub receive_from_client :
    Environment → List (List ℕ) → ℕ → Frame → List ℕ → Relay → Relay
receive_from_client env draws conn frame raw r =
    if frame.type == circuit_create
    then create_circuit env draws conn frame r
    else if frame.type == stream_data
    then elim (get (r.connection conn).circuits frame.circuit_id) [
      | none ↦ unowned r
      | some k ↦
          if (r.circuit k).open_circuit
          then forward env k to_service raw r
          else remove_circuit k notify_both protocol_violation (violated r)
    ]
    else if frame.type == circuit_destroy
    then elim (get (r.connection conn).circuits frame.circuit_id) [
      | none ↦ unowned r
      | some k ↦ remove_circuit k notify_service destroy_normal r
    ]
    else violation conn r

-- The service node has answered.
unfoldable pub opened : Environment → ℕ → List ℕ → Relay → Relay
opened env k raw r =
    let circuit = r.circuit k in
    let r1 =
      settle_pending circuit.client (set_circuit k (record circuit { open_circuit = true }) r) in
    forward env k to_client raw
      (count (λ s. record s { circuits_opened = suc s.circuits_opened }) r1)

unfoldable pub receive_from_service : Environment → ℕ → Frame → List ℕ → Relay → Relay
receive_from_service env conn frame raw r =
    if frame.type == circuit_created
    then elim (get (r.connection conn).circuits frame.circuit_id) [
      | none ↦ violation conn r
      | some k ↦
          if (r.circuit k).open_circuit
          then violation conn r
          else if not (length frame.payload == handshake_message_size) || not (frame.stream_id == 0)
          then remove_circuit k notify_both protocol_violation (violated r)
          else opened env k raw r
    ]
    else if frame.type == stream_data
    then elim (get (r.connection conn).circuits frame.circuit_id) [
      | none ↦ unowned r
      | some k ↦
          if (r.circuit k).open_circuit then forward env k to_client raw r else violation conn r
    ]
    else if frame.type == circuit_destroy
    then elim (get (r.connection conn).circuits frame.circuit_id) [
      | none ↦ unowned r
      | some k ↦ remove_circuit k notify_client destroy_normal r
    ]
    else violation conn r

-- The relay's key, and its signature over a nonce and the endpoint.
pub record Identity : Type 0 where
  pub public_key : List ℕ
  pub sign_relay_identity : List ℕ → List ℕ

abbrev reply : ℕ → List ℕ → EncodeOptions
reply type payload = record {
  type = type;
  circuit_id = none;
  stream_id = none;
  flags = none;
  payload = some payload;
}

-- A key or a signature of another size is refused by the encoder, and what it throws ends the
-- connection.
unfoldable pub prove_identity : Identity → ℕ → Frame → Relay → Relay
prove_identity identity conn frame r =
    let c = r.connection conn in
    if not (frame.circuit_id == 0) || (not (frame.stream_id == 0) || c.identity_proven)
    then violation conn r
    else elim (decode_relay_hello frame.payload) [
      | err e ↦ fail conn protocol_violation close_policy r
      | ok nonce ↦
          let r' = set_connection conn (record c { identity_proven = true }) r in
          elim (encode_relay_hello_ack identity.public_key (identity.sign_relay_identity nonce)) [
            | err e ↦ fail conn protocol_violation close_policy r'
            | ok payload ↦ output (send conn (reply hello_ack payload)) r'
          ]
    ]

unfoldable pub is_ready : Option ServiceState → Bool
is_ready (some ready) = true
is_ready s = false

module _ {Grant : Type 0} (trust : Trust Grant) (identity : Identity) where
  -- A frame that is neither PING, PONG nor HELLO, with the proof that is to be verified, if it is one.
  unfoldable pub route :
      Environment
      → List (List ℕ)
      → ℕ
      → Kind
      → Frame
      → List ℕ
      → Relay
      → Relay × Option (ServiceAuth Grant)
  route env draws conn client_kind frame raw r =
      (receive_from_client env draws conn frame raw r, none)
  route env draws conn service_kind frame raw r =
      if is_ready (r.connection conn).state
      then (receive_from_service env conn frame raw r, none)
      else receive_unauthenticated trust env conn frame r

  unfoldable pub receive :
      Environment → List (List ℕ) → ℕ → List ℕ → Relay → Relay × Option (ServiceAuth Grant)
  receive env draws conn bytes r =
      if (r.connection conn).closed
      then (r, none)
      else if ltb max_frame_size (length bytes)
      then (fail conn protocol_violation close_too_big r, none)
      else elim (decode_frame bytes) [
        | err e ↦ (fail conn e.code close_policy r, none)
        | ok frame ↦
            if frame.type == ping && frame.circuit_id == 0
            then (output (send conn (reply pong (take 32 frame.payload))) r, none)
            else if frame.type == pong
            then (r, none)
            else if frame.type == hello
            then (prove_identity identity conn frame r, none)
            else route env draws conn (r.connection conn).kind frame bytes r
      ]
