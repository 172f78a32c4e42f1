-- ===== src/Client/SecureCircuit/Sending.antt =====
-- packages/client/src/overlay/secure-circuit.ts: what one end of a circuit sends.
use tnp.Prelude.{
  ℕ, zero, suc, ◌+◌, ◌-◌, ◌==◌, Bool, true, false, not, ◌||◌, ◌&&◌, ltb, leb, min, if◌then◌else◌,
  Option, some, none, List, length, take, drop, Result, ok, err, ◌>>=◌, whole,
}
use tnp.Protocol.ErrorCode.{truncated}
use tnp.Protocol.FlowControl.{debit}
use tnp.Protocol.Noise.{Aead}
use tnp.Protocol.Overlay.Stream.{
  StreamMessage, open_port, opened, chunk, reset, window, fin, encode_stream_message,
  max_stream_data,
}
use tnp.Protocol.Session.{
  Session, session_error, Thrown, rekey_required, as_thrown, seal, update_key, close_session,
  needs_key_update,
}
use tnp.Client.SecureCircuit.{
  SecureCircuit, CircuitLink, is_client, record_header, record_frame, offer, finish, fail,
  as_session_error, tell_writable, grant_threshold,
}

-- `sendRecord`: whether the connection took the record.
unfoldable pub send_record : CircuitLink → List ℕ → SecureCircuit → Bool × SecureCircuit
send_record link sealed c =
    let c1 = offer (record_frame c.id sealed) c in
    if link.sends (length c.frames) then (true, c1) else (
      false,
      finish (some (session_error "connection to the relay lost" truncated)) false false c1,
    )

-- `writable`: the bytes that `write` takes now.
unfoldable pub writable : CircuitLink → SecureCircuit → ℕ
writable link c =
    if c.done || (c.sent_fin || link.congested (length c.frames))
    then 0
    else if not (is_client c.role) && not c.sent_opened
    then 0
    else min c.send_window.available max_stream_data

-- What `sendMessage` catches, with the circuit as the throw leaves it.
abbrev pub Sent : Type 0 → Type 0
Sent A = Result (Thrown × SecureCircuit) A

-- The record of a key update goes out, whatever becomes of it.
unfoldable pub after_update :
    CircuitLink → SecureCircuit → Result Thrown (List ℕ × Session) → Sent SecureCircuit
after_update link c (ok (sealed, s)) = ok (send_record link sealed (record c { state = s })).1
after_update link c (err e) = err (e, c)

abbrev pub beside :
    SecureCircuit → Result Thrown (List ℕ × SecureCircuit) → Sent (List ℕ × SecureCircuit)
beside c (ok r) = ok r
beside c (err e) = err (e, c)

unfoldable pub after_post : Sent (Bool × SecureCircuit) → Bool × SecureCircuit
after_post (ok r) = r
after_post (err (e, c)) = (false, fail (as_session_error "send failed" e) c)

-- A session that cannot close is left alone.
unfoldable pub after_close :
    CircuitLink → SecureCircuit → Result Thrown (List ℕ × Session) → SecureCircuit
after_close link c (ok (sealed, s)) = (send_record link sealed (record c { state = s })).1
after_close link c (err e) = c

abbrev pub maybe_complete : SecureCircuit → SecureCircuit
maybe_complete c = if c.sent_close && c.peer_close then finish none true false c else c

module _ (a : Aead) where
  abbrev pub renew : CircuitLink → SecureCircuit → Sent SecureCircuit
  renew link c = after_update link c (update_key a c.state record_header)

  -- `session.seal(encodeStreamMessage(message), RECORD_HEADER)`
  unfoldable pub seal_message :
      StreamMessage → SecureCircuit → Result Thrown (List ℕ × SecureCircuit)
  seal_message m c = do
    body ← as_thrown (encode_stream_message m)
    (sealed, s) ← seal a c.state body record_header
    ok (sealed, record c { state = s })

  -- A seal that asks for a key update is tried once more after it.
  unfoldable pub retry :
      CircuitLink
      → StreamMessage
      → SecureCircuit
      → Result Thrown (List ℕ × SecureCircuit)
      → Sent (List ℕ × SecureCircuit)
  retry link m c (err rekey_required) = do
    renewed ← renew link c
    beside renewed (seal_message m renewed)
  retry link m c sealed = beside c sealed

  abbrev pub post_sealed : CircuitLink → StreamMessage → SecureCircuit → Sent (Bool × SecureCircuit)
  post_sealed link m c = do
    (sealed, c1) ← retry link m c (seal_message m c)
    ok (send_record link sealed c1)

  unfoldable pub post : CircuitLink → StreamMessage → SecureCircuit → Sent (Bool × SecureCircuit)
  unfolding retry
  post link m c =
      if needs_key_update c.state then renew link c >>= post_sealed link m else post_sealed link m c

  -- `sendMessage`
  unfoldable pub send_message : CircuitLink → StreamMessage → SecureCircuit → Bool × SecureCircuit
  unfolding after_post post
  send_message link m c = if c.done || c.sent_close then (false, c) else after_post (post link m c)

  -- `sendSessionClose`
  unfoldable pub send_session_close : CircuitLink → SecureCircuit → SecureCircuit
  unfolding after_close
  send_session_close link c =
      if c.sent_close || c.done
      then c
      else record (after_close link c (close_session a c.state record_header)) { sent_close = true }

  -- Both FINs are exchanged.
  unfoldable pub maybe_close : CircuitLink → SecureCircuit → SecureCircuit
  maybe_close link c =
      if c.sent_fin && (c.peer_fin && not c.sent_close)
      then maybe_complete (send_session_close link c)
      else c

  -- `open` throws on the side of the service node.
  unfoldable pub open_stream : CircuitLink → ℕ → SecureCircuit → Option SecureCircuit
  open_stream link port c =
      if is_client c.role then some (send_message link (open_port (whole port)) c).1 else none

  unfoldable pub accept : CircuitLink → SecureCircuit → SecureCircuit
  accept link c =
      if is_client c.role || c.sent_opened
      then c
      else tell_writable (send_message link opened (record c { sent_opened = true })).1

  -- The loop of `write`: each turn takes at least one byte, so that as much fuel as there are bytes is
  -- enough.
  unfoldable pub write_from : CircuitLink → (fuel : ℕ) → List ℕ → SecureCircuit → ℕ × SecureCircuit
  write_from link zero bytes c = (0, c)
  write_from link (suc fuel) bytes c =
      let room = writable link c in
      let n = min room (length bytes) in
      let (consumed, send_window) = debit c.send_window n in
      let (sent, c1) =
        send_message link (chunk (take n bytes)) (record c { send_window = send_window }) in
      let (taken, c2) = write_from link fuel (drop n bytes) c1 in
      if leb (length bytes) 0 || room == 0
      then (0, c)
      else if not consumed
      then (0, record c { send_window = send_window })
      else if sent
      then (n + taken, c2)
      else (0, c1)

  unfoldable pub write : CircuitLink → List ℕ → SecureCircuit → ℕ × SecureCircuit
  unfolding write_from
  write link bytes c = write_from link (length bytes) bytes c

  -- The owner has taken so many delivered bytes.
  unfoldable pub consumed : CircuitLink → ℕ → SecureCircuit → SecureCircuit
  consumed link n c =
      if c.done || (c.peer_fin || c.sent_close)
      then c
      else let taken = c.consumed_ungranted + n in
        if ltb taken grant_threshold
        then record c { consumed_ungranted = taken }
        else let credit = min taken c.received_ungranted in
          let c1 = record c { consumed_ungranted = 0 } in
          if credit == 0
          then c1
          else (send_message link (window (whole credit))
              (record c1 { received_ungranted = c.received_ungranted - credit })).1

  unfoldable pub end : CircuitLink → SecureCircuit → SecureCircuit
  end link c =
      if c.done || c.sent_fin
      then c
      else maybe_close link (send_message link fin (record c { sent_fin = true })).1

  -- `reset`
  unfoldable pub reset_stream : CircuitLink → ℕ → SecureCircuit → SecureCircuit
  reset_stream link code c =
      if c.done
      then c
      else finish none true true
          (send_session_close link (send_message link (reset (whole code)) c).1)
