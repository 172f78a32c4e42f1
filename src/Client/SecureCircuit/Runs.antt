-- ===== src/Client/SecureCircuit/Runs.antt =====
-- A client's end of a circuit from its start to its clean end, and the theorems at concrete inputs.
use tnp.Prelude.{
  ◌⊎◌, ◌≤◌, ℕ, ◌≡◌, refl, true, false, none, List, [], ◌∷◌, ◌++◌, replicate, length, All,
}
use tnp.Prelude.Bytes.{u16_bytes, u32_bytes, u64_bytes, u64_of}
use tnp.Protocol.Frame.{Frame, stray_flags}
use tnp.Protocol.FrameType.{stream_data, is_frame_type, allowed_flags}
use tnp.Protocol.FlowControl.{debit, credit}
use tnp.Protocol.Overlay.Stream.{
  encode_stream_message, decode_stream_message, decode_data, is_within,
}
use tnp.Protocol.Session.{
  Session, in_range, valid_flags, frame_associated_data, needs_key_update, poison, assert_can_send,
  counter_of, poisoned, type_of, seal_record, seal, close_session, update_key, open_inner,
  open_record, open_next,
}
use tnp.Protocol.Noise.{encrypt_with_ad, decrypt_with_ad, noise_nonce}
use tnp.Protocol.Session.Runs.{toy, strip}
use tnp.Client.SecureCircuit.{
  SecureCircuit, CircuitLink, client, new_circuit, is_client, deliver, tell_writable, finish,
  replay, bind, remote_destroyed,
}
use tnp.Client.SecureCircuit.Sending.{
  send_record, after_update, seal_message, retry, post, after_post, send_message, after_close,
  send_session_close, maybe_close, open_stream, end,
}
use tnp.Client.SecureCircuit.Writing.{write_from-write}
use tnp.Client.SecureCircuit.Sending.{write_from, write}
use tnp.Prelude.{arith}
use tnp.Client.SecureCircuit.Receiving.{
  Operation, binds, opens, ends, receives, handle_first, receive_message, receive_opened, is_record,
  receive, perform, run,
}
use tnp.Client.SecureCircuit.Kept.Histories.{is_reset}
use tnp.Client.SecureCircuit.Sound.{count_of, destroys, IsSound, run-IsSound}
use tnp.Client.SecureCircuit.Fin.{FinOpened}
use tnp.Client.SecureCircuit.Honest.{is_clean, clean_ends, failures}
use tnp.Client.SecureCircuit.Clean.{run-IsHonest}

abbrev state : Session
state = record {
  send_key = replicate 32 4;
  receive_key = replicate 32 5;
  send_counter = 0;
  receive_counter = 0;
  sent_close = false;
  received_close = false;
  failed = none;
  hash = [];
  limits = record { max_records_per_key = 100; key_update_interval = 90 };
}

-- The record number n of the peer, under the toy cipher.
abbrev frame_of : ℕ → List ℕ → Frame
frame_of n inner = record {
  version = 1;
  type = stream_data;
  flags = 0;
  circuit_id = 9;
  stream_id = 1;
  payload = u64_bytes n ++ (replicate 16 5 ++ inner);
}

abbrev open_link : CircuitLink
open_link = record { sends = λ n. true; congested = λ n. false }

abbrev over_link : List Operation → List (CircuitLink × Operation)
over_link [] = []
over_link (o ∷ rest) = (open_link, o) ∷ over_link rest

-- OPENED, three bytes of data, FIN, and the close of the session come from the peer.
abbrev history : List (CircuitLink × Operation)
history = over_link (
    opens 80
    ∷ receives (frame_of 0 (0 ∷ 2 ∷ []))
    ∷ receives (frame_of 1 (0 ∷ 3 ∷ 7 ∷ 8 ∷ 9 ∷ []))
    ∷ binds
    ∷ ends
    ∷ receives (frame_of 2 (0 ∷ 6 ∷ []))
    ∷ receives (frame_of 3 (1 ∷ []))
    ∷ [])

abbrev ended : SecureCircuit
ended = run toy history (new_circuit 9 client state)

running : Unit {0}
unfolding u64_bytes u64_of u16_bytes u32_bytes stray_flags is_frame_type allowed_flags debit credit
    encode_stream_message decode_stream_message decode_data is_within in_range valid_flags
    frame_associated_data needs_key_update poison assert_can_send counter_of poisoned type_of
    seal_record seal close_session update_key open_inner open_record open_next encrypt_with_ad
    decrypt_with_ad noise_nonce strip new_circuit deliver tell_writable finish replay bind
    remote_destroyed send_record after_update seal_message retry post after_post send_message
    after_close send_session_close maybe_close open_stream end handle_first receive_message
    receive_opened is_record receive perform run count_of is_clean
running = tt

clean_end : (ended.done ≡ true) × (clean_ends ended ≡ 1) × (destroys ended ≡ 1)
unfolding running
clean_end = (refl, refl, refl)

-- OPEN, FIN and the session's close, and the end of the circuit.
four_frames : length ended.frames ≡ 4
unfolding running
four_frames = refl

run-IsSound_example : IsSound ended
run-IsSound_example = run-IsSound toy 9 client state history

without_reset : All (λ x. is_reset x.1 ≡ false) history
unfolding is_reset
without_reset = (refl, (refl, (refl, (refl, (refl, (refl, (refl, tt)))))))

run-IsHonest_example :
    ((clean_ends ended ≡ 0) ⊎ FinOpened toy history (new_circuit 9 client state))
    × ((is_client client ≡ true) ⊎ (destroys ended ≤ failures ended))
run-IsHonest_example = run-IsHonest toy 9 client state history without_reset

abbrev opened_circuit : SecureCircuit
opened_circuit = run toy (over_link (opens 80 ∷ [])) (new_circuit 9 client state)

write_from-write_example :
    write_from toy open_link 5 (7 ∷ 8 ∷ 9 ∷ []) opened_circuit
    ≡ write toy open_link (7 ∷ 8 ∷ 9 ∷ []) opened_circuit
write_from-write_example =
    write_from-write toy open_link 5 (7 ∷ 8 ∷ 9 ∷ []) opened_circuit (omega arith)
