-- ===== src/Client/SecureCircuit.antt =====
-- packages/client/src/overlay/secure-circuit.ts: the state of one end of an end-to-end circuit, and its
-- end. What the owner of
-- the circuit does in a callback is a later operation: a callback comes last in a method, or what
-- follows it finds the same fields. The time of the last activity is left out.
pub mod Sending
pub mod Receiving
pub mod Kept
pub mod Writing
pub mod Sound
pub mod Fin
pub mod Honest
pub mod Clean
mod Runs
use Prim.Native.String.{String}
use tnp.Prelude.{
  ℕ, suc, ◌+◌, ◌-◌, ◌/◌, ◌==◌, Bool, true, false, not, ◌||◌, ◌&&◌, ltb, leb, min, if◌then◌else◌,
  Option, some, none, List, [], ◌∷◌, ◌++◌, length, take, drop, Result, ok, err, ◌>>=◌, whole,
  Number, value, RangeError,
}
use tnp.Protocol.Constants.{stream_window_initial}
use tnp.Protocol.ErrorCode.{protocol_violation, truncated, flow_control}
use tnp.Protocol.FrameType.{stream_data, circuit_destroy}
use tnp.Protocol.Frame.{Frame, FrameDecodeError, EncodeOptions}
use tnp.Protocol.FlowControl.{FlowWindow, debit, credit}
use tnp.Protocol.Noise.{Aead}
use tnp.Protocol.Overlay.Stream.{
  StreamMessage, open_port, opened, chunk, reset, window, fin, encode_stream_message,
  decode_stream_message, max_stream_data,
}
use tnp.Protocol.Session.{
  Session, SessionError, session_error, Thrown, range, session, rekey_required, RecordHeader,
  OpenedRecord, plain, close, key_update, as_thrown, seal, update_key, close_session, open_next,
  needs_key_update,
}

-- The stream of a circuit's records.
abbrev pub e2e_stream_id : ℕ
e2e_stream_id = 1

abbrev pub record_header : RecordHeader
record_header = record { type = stream_data; flags = whole 0; stream_id = whole e2e_stream_id }

abbrev pub grant_threshold : ℕ
grant_threshold = stream_window_initial / 4

-- The connection during one operation: whether it takes a frame, and whether it is congested, once so
-- many frames have been offered to it.
pub record CircuitLink : Type 0 where
  pub sends : ℕ → Bool
  pub congested : ℕ → Bool

pub data Role : Type 0 where
  client service : Role

-- What `SecureCircuitEvents` is told, or the backlog keeps until it is bound.
pub data Delivery : Type 0 where
  on_data : List ℕ → Delivery
  on_end : Delivery
  on_close : Option SessionError → Delivery

-- The calls of `SecureCircuitEvents` and `SecureCircuitHooks`.
pub data Call : Type 0 where
  event : Delivery → Call
  on_writable : Call
  on_open : Number → Call
  on_opened : Call
  on_done : Option SessionError → Call

-- The frames that were offered to the connection and the calls that were made stand newest first;
-- a frame is what `encodeFrame` is given. The data path is bound where `events` is not null.
pub record SecureCircuit : Type 0 where
  pub id : ℕ
  pub role : Role
  pub state : Session
  pub send_window : FlowWindow
  pub received_ungranted : ℕ
  pub consumed_ungranted : ℕ
  pub started : Bool
  pub sent_opened : Bool
  pub sent_fin : Bool
  pub peer_fin : Bool
  pub sent_close : Bool
  pub peer_close : Bool
  pub done : Bool
  pub bound : Bool
  pub backlog : List Delivery
  pub frames : List EncodeOptions
  pub calls : List Call

unfoldable pub new_circuit : ℕ → Role → Session → SecureCircuit
new_circuit id role state = record {
  id = id;
  role = role;
  state = state;
  send_window = record { available = stream_window_initial; initial = stream_window_initial };
  received_ungranted = 0;
  consumed_ungranted = 0;
  started = false;
  sent_opened = false;
  sent_fin = false;
  peer_fin = false;
  sent_close = false;
  peer_close = false;
  done = false;
  bound = false;
  backlog = [];
  frames = [];
  calls = [];
}

abbrev pub is_client : Role → Bool
is_client client = true
is_client service = false

abbrev pub record_frame : ℕ → List ℕ → EncodeOptions
record_frame id sealed = record {
  type = stream_data;
  circuit_id = some (whole id);
  stream_id = some (whole e2e_stream_id);
  flags = none;
  payload = some sealed;
}

-- With `encodeDestroy(DESTROY_NORMAL)`.
abbrev pub destroy_frame : ℕ → EncodeOptions
destroy_frame id = record {
  type = circuit_destroy;
  circuit_id = some (whole id);
  stream_id = none;
  flags = none;
  payload = some (0 ∷ 0 ∷ []);
}

abbrev pub offer : EncodeOptions → SecureCircuit → SecureCircuit
offer frame c = record c { frames = frame ∷ c.frames }

abbrev pub call : Call → SecureCircuit → SecureCircuit
call k c = record c { calls = k ∷ c.calls }

-- `this.events ? … : this.backlog.push(…)`
unfoldable pub deliver : Delivery → SecureCircuit → SecureCircuit
deliver d c = if c.bound then call (event d) c else record c { backlog = c.backlog ++ (d ∷ []) }

-- `this.events?.onWritable()`
unfoldable pub tell_writable : SecureCircuit → SecureCircuit
tell_writable c = if c.bound then call on_writable c else c

-- The client tears the circuit down at the relay, the service node only for a failure (`force`).
-- Whether the connection takes the frame makes no difference.
unfoldable pub finish :
    Option SessionError → (notify_relay force : Bool) → SecureCircuit → SecureCircuit
unfolding deliver
finish error notify_relay force c =
    if c.done
    then c
    else let c1 = record c { done = true } in
      let c2 =
        if notify_relay && (is_client c.role || force) then offer (destroy_frame c.id) c1 else c1 in
      call (on_done error) (deliver (on_close error) c2)

abbrev pub fail : SessionError → SecureCircuit → SecureCircuit
fail error c = finish (some error) true true c

abbrev pub violation : SecureCircuit → SecureCircuit
violation c = fail (session_error "stream message out of order" protocol_violation) c

-- An error that is not a `SessionError` is replaced.
abbrev pub as_session_error : String → Thrown → SessionError
as_session_error m (session e) = e
as_session_error m e = session_error m protocol_violation

-- The backlog, in order.
unfoldable pub replay : List Delivery → List Call → List Call
replay [] calls = calls
replay (d ∷ backlog) calls = replay backlog (event d ∷ calls)

unfoldable pub bind : SecureCircuit → SecureCircuit
unfolding tell_writable replay
bind c =
    let c1 = record c { bound = true; backlog = []; calls = replay c.backlog c.calls } in
    if c.done then c1 else tell_writable c1

unfoldable pub poke : SecureCircuit → SecureCircuit
poke c = if c.done then c else tell_writable c

-- `remoteDestroyed`: the relay destroyed the circuit, or the connection to it was lost.
unfoldable pub remote_destroyed : SecureCircuit → SecureCircuit
remote_destroyed c =
    if c.done
    then c
    else if c.peer_fin
    then finish none false false c
    else finish (some (session_error "circuit ended before the peer finished" truncated)) false
        false c

unfoldable pub abort : SecureCircuit → SecureCircuit
abort c =
    if c.done
    then c
    else finish (some (session_error "circuit aborted locally" truncated)) true false c
