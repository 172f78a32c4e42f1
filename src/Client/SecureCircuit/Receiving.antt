-- ===== src/Client/SecureCircuit/Receiving.antt =====
-- packages/client/src/overlay/secure-circuit.ts: what one end of a circuit receives, and all that can
-- happen to it.
use tnp.Prelude.{
  ℕ, ◌+◌, ◌==◌, Bool, true, false, not, ◌||◌, ◌&&◌, default_to, ltb, if◌then◌else◌, some, List, [],
  ◌∷◌, length, Result, ok, err, whole, value,
}
use tnp.Protocol.Constants.{stream_window_initial}
use tnp.Protocol.ErrorCode.{protocol_violation, truncated, flow_control}
use tnp.Protocol.FrameType.{stream_data, circuit_destroy}
use tnp.Protocol.Frame.{Frame, FrameDecodeError}
use tnp.Protocol.FlowControl.{credit}
use tnp.Protocol.Noise.{Aead}
use tnp.Protocol.Overlay.Stream.{
  StreamMessage, open_port, opened, chunk, reset, window, fin, decode_stream_message,
}
use tnp.Protocol.Session.{
  RecordHeader, session_error, Thrown, OpenedRecord, plain, close, key_update, open_next,
}
use tnp.Client.SecureCircuit.{
  SecureCircuit, CircuitLink, on_data, on_end, on_open, on_opened, is_client, e2e_stream_id, call,
  deliver, finish, fail, violation, as_session_error, tell_writable, bind, poke, remote_destroyed,
  abort,
}
use tnp.Client.SecureCircuit.Sending.{
  maybe_close, maybe_complete, open_stream, accept, write, consumed, end, reset_stream,
}

-- The frame that a record came in is the header it is opened with.
abbrev pub header_of : Frame → RecordHeader
header_of f = record { type = f.type; flags = whole f.flags; stream_id = whole f.stream_id }

unfoldable pub is_record : Frame → Bool
is_record f = (f.type == stream_data) && ((f.stream_id == e2e_stream_id) && (f.flags == 0))

-- What happens to a circuit: a call of its owner, or a frame from the relay.
pub data Operation : Type 0 where
  binds pokes accepts ends aborts is_destroyed : Operation
  opens : (port : ℕ) → Operation
  writes : List ℕ → Operation
  has_consumed : ℕ → Operation
  resets : (code : ℕ) → Operation
  receives : Frame → Operation

module _ (a : Aead) where
  -- `first`: nothing has come before. A credit that was decoded has 32 bits, so that `grant` does not
  -- throw.
  unfoldable pub handle_first :
      CircuitLink → (first : Bool) → StreamMessage → SecureCircuit → SecureCircuit
  handle_first link first (open_port port) c =
      if is_client c.role || not first then violation c else call (on_open port) c
  handle_first link first opened c =
      if not (is_client c.role) || not first then violation c else tell_writable (call on_opened c)
  handle_first link first (reset code) c =
      finish (some (session_error "peer reset the stream" (value code))) true false c
  handle_first link first (window amount) c =
      if first && not (is_client c.role)
      then violation c
      else tell_writable (record c { send_window = credit c.send_window (value amount) })
  handle_first link first (chunk bytes) c =
      if first || c.peer_fin
      then violation c
      else if ltb stream_window_initial (c.received_ungranted + length bytes)
      then fail (session_error "peer exceeded its flow-control window" flow_control) c
      else deliver (on_data bytes)
          (record c { received_ungranted = c.received_ungranted + length bytes })
  handle_first link first fin c =
      if first || c.peer_fin
      then violation c
      else maybe_close a link (deliver on_end (record c { peer_fin = true }))

  abbrev pub handle_message : CircuitLink → StreamMessage → SecureCircuit → SecureCircuit
  handle_message link m c = handle_first link (not c.started) m (record c { started = true })

  unfoldable pub receive_message :
      CircuitLink → Result FrameDecodeError StreamMessage → SecureCircuit → SecureCircuit
  unfolding handle_first
  receive_message link (ok m) c = handle_message link m c
  receive_message link (err e) c = fail (session_error "malformed stream message" e.code) c

  -- What `session.open` has returned or thrown.
  unfoldable pub receive_opened :
      CircuitLink → Result Thrown OpenedRecord → SecureCircuit → SecureCircuit
  unfolding receive_message
  receive_opened link (err e) c = fail (as_session_error "record refused" e) c
  receive_opened link (ok key_update) c = c
  receive_opened link (ok close) c =
      let c1 = record c { peer_close = true } in
      if not c.peer_fin
      then fail (session_error "peer closed without finishing its data" truncated) c1
      else maybe_complete c1
  receive_opened link (ok (plain plaintext)) c =
      receive_message link (decode_stream_message plaintext) c

  unfoldable pub receive : CircuitLink → Frame → SecureCircuit → SecureCircuit
  unfolding receive_opened is_record
  receive link frame c =
      if c.done
      then c
      else if frame.type == circuit_destroy
      then remote_destroyed c
      else if not (is_record frame)
      then fail (session_error "unexpected frame on an open circuit" protocol_violation) c
      else let (answer, s) = open_next a c.state frame.payload (header_of frame) in
        receive_opened link answer (record c { state = s })

  unfoldable pub perform : CircuitLink → Operation → SecureCircuit → SecureCircuit
  perform link binds c = bind c
  perform link pokes c = poke c
  perform link accepts c = accept a link c
  perform link ends c = end a link c
  perform link aborts c = abort c
  perform link is_destroyed c = remote_destroyed c
  perform link (opens port) c = default_to c (open_stream a link port c)
  perform link (writes bytes) c = (write a link bytes c).1
  perform link (has_consumed n) c = consumed a link n c
  perform link (resets code) c = reset_stream a link code c
  perform link (receives frame) c = receive link frame c

  -- A history, with the connection during each operation.
  unfoldable pub run : List (CircuitLink × Operation) → SecureCircuit → SecureCircuit
  unfolding perform
  run [] c = c
  run ((link, o) ∷ rest) c = run rest (perform link o c)
