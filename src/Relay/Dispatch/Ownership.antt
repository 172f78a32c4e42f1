-- ===== src/Relay/Dispatch/Ownership.antt =====
-- A connection reaches no circuit but its own.
use tnp.Prelude.{ℕ, suc, ◌≤◌, ◌≡◌, refl, false, none, some, List, length, arith, ok, ◌⊎◌, inl, inr}
use tnp.Protocol.CircuitId.{get}
use tnp.Protocol.Frame.{Frame, decode_frame}
use tnp.Protocol.FrameType.{stream_data, circuit_destroy}
use tnp.Protocol.Constants.{max_frame_size}
use tnp.Relay.Connections.{unowned}
use tnp.Relay.Dispatch.{
  Identity, receive, route, receive_from_client, receive_from_service, is_ready,
}
use tnp.Relay.Services.{Trust}
use tnp.Relay.State.{Relay, Connection, Environment, client_kind, ready, count}

-- A frame that carries data or ends a circuit, for an identifier that is not in the table of the
-- connection it came on.
pub record IsForeign (conn : ℕ) (frame : Frame) (r : Relay) : Type 0 where
  pub carries : (frame.type ≡ stream_data) ⊎ (frame.type ≡ circuit_destroy)
  pub absent : get (r.connection conn).circuits frame.circuit_id ≡ none

receive_from_client-foreign :
    (env : Environment) (draws : List (List ℕ)) (conn : ℕ) (frame : Frame) (raw : List ℕ)
    (r : Relay)
    → IsForeign conn frame r
    → receive_from_client env draws conn frame raw r ≡ unowned r
unfolding receive_from_client
receive_from_client-foreign env draws conn frame raw r f = elim f.carries [
  | inl t ↦ rw (t, f.absent) refl
  | inr t ↦ rw (t, f.absent) refl
]

receive_from_service-foreign :
    (env : Environment) (conn : ℕ) (frame : Frame) (raw : List ℕ) (r : Relay)
    → IsForeign conn frame r
    → receive_from_service env conn frame raw r ≡ unowned r
unfolding receive_from_service
receive_from_service-foreign env conn frame raw r f = elim f.carries [
  | inl t ↦ rw (t, f.absent) refl
  | inr t ↦ rw (t, f.absent) refl
]

-- A connection that may speak: a client, or a service node that has proved itself.
abbrev pub IsSpeaking : Connection → Type 0
IsSpeaking c = (c.closed ≡ false) × ((c.kind ≡ client_kind) ⊎ (c.state ≡ some ready))

module _ {Grant : Type 0} (trust : Trust Grant) (identity : Identity) where
  route-foreign :
      (env : Environment) (draws : List (List ℕ)) (conn : ℕ) (frame : Frame) (raw : List ℕ)
      (r : Relay)
      → IsSpeaking (r.connection conn)
      → IsForeign conn frame r
      → route trust identity env draws conn (r.connection conn).kind frame raw r ≡ (unowned r, none)
  unfolding route is_ready
  route-foreign env draws conn frame raw r (live, spoken) f = ground (
    arith,
    receive_from_client-foreign env draws conn frame raw r f,
    receive_from_service-foreign env conn frame raw r f,
  )

  -- Data, or the end of a circuit, under an identifier that the connection's own table does not hold
  -- adds one to the count of dropped frames and changes nothing else of the relay: nothing is sent, no
  -- connection, circuit or service is touched, and no domain key is looked up.
  pub receive-foreign :
      (env : Environment) (draws : List (List ℕ)) (conn : ℕ) (bytes : List ℕ) (frame : Frame)
      (r : Relay)
      → IsSpeaking (r.connection conn)
      → length bytes ≤ max_frame_size
      → decode_frame bytes ≡ ok frame
      → IsForeign conn frame r
      → receive trust identity env draws conn bytes r ≡ (
        record r {
          counters = record r.counters { frames_dropped = suc r.counters.frames_dropped };
        },
        none,
      )
  unfolding receive unowned count
  receive-foreign env draws conn bytes frame r s l e f =
      let route_none : route trust identity env draws conn (r.connection conn).kind frame bytes r
          ≡ (unowned r, none) =
        route-foreign env draws conn frame bytes r s f in
      ground (arith, route_none, f.carries, s.0)
