-- ===== src/Relay/Runs.antt =====
-- A relay with one service node and one client, and the theorems at concrete inputs.
use tnp.Prelude.Texts.{same_text}
use tnp.Prelude.{
  All, inr, ◌≢◌, ◌==◌, ◌*◌, ◌+◌, ◌≤◌, arith, inl, none, ℕ, suc, ◌≡◌, refl, true, false, some, List,
  [], ◌∷◌, ◌++◌, replicate, ok,
}
use tnp.Prelude.Counts.{pos, increment, decrement, at_least}
use tnp.Prelude.Maps.{lookup, insert}
use tnp.Prelude.Utf8.{text_decode, without_mark, utf8_from, utf8_step}
use tnp.Prelude.Bytes.{u16_of, u32_of, u64_of}
use tnp.Protocol.CircuitId.{
  create, size, at_capacity, get, has, add, is_some, generate_circuit_id, id_of_bytes,
}
use tnp.Protocol.Frame.{decode_frame, read_frame, declared_length, stray_flags}
use tnp.Protocol.FrameType.{is_frame_type, allowed_flags, auth, circuit_create}
use tnp.Protocol.Overlay.Name.{is_canonical_name, is_label, split, split_at}
use tnp.Protocol.Overlay.Circuit.{decode_circuit_create}
use tnp.Relay.Limits
use tnp.Relay.Limits.{RelayLimits, default_limits, refill, take, token}
use tnp.Relay.Limits.Rate.{take_all, take_all-create}
use tnp.Relay.Ips.{IpTable, allow_create, allow_auth, release, new_entry, admit_entry}
use tnp.Relay.Ips.Bounds.{IsTracked, operations-IsTracked}
use tnp.Relay.Circuits.{readdressed}
use tnp.Relay.Circuits.Draws.{IsUseless}
use tnp.Relay.Circuits.Readdressing.{decode_frame-readdressed}
use tnp.Relay.Dispatch.Ownership.{IsSpeaking, IsForeign, receive-foreign}
use tnp.Protocol.Frame.{Frame}
use tnp.Protocol.FrameType.{stream_data}
use tnp.Relay.Ips
use tnp.Relay.State.{
  Relay, Environment, set_connection, set_circuit, count, output, find_service, set_service,
}
use tnp.Relay.Circuits.{
  admit_circuit, place_circuit, open_pending, share_refusal, is_full, live_service, free_id, reject,
  send_to,
}
use tnp.Relay.Connections.{admit, answer, accept_client, accept_service, new_connection}
use tnp.Relay.Services.{
  Trust, ServiceAuth, receive_unauthenticated, wrong_frame, is_awaiting, verify_service, is_proof,
  contend, register, same_key,
}
use tnp.Relay.Dispatch.{Identity, receive, route, is_ready, receive_from_client, create_circuit}
use tnp.Relay.Events.{
  Event, step, run, start, asks_in, client_comes, service_comes, says, key_found,
}
use tnp.Relay.Services.Incumbent.{IsRival, verify_service-incumbent}

-- "a.ox"
abbrev name : List ℕ
name = 0x61 ∷ 0x2e ∷ 0x6f ∷ 0x78 ∷ []

abbrev proof : ServiceAuth ℕ
proof = record { name = name; chain = 1 ∷ []; signature = 5 ∷ [] }

-- Every payload is a proof, and every chain and signature is good.
abbrev trusting : Trust ℕ
trusting = record {
  decode_service_auth = λ payload. some proof;
  verify_chain = λ chain root now scope. ok (record { key = 3 ∷ []; not_after = 1000 });
  verify_service_auth = λ scope challenge key signature. true;
}

abbrev identity : Identity
identity = record { public_key = replicate 32 1; sign_relay_identity = λ nonce. replicate 64 2 }

abbrev moment : Environment
moment = record { now = 10; buffered = λ i. 0; going = λ i. false }

abbrev draw : List ℕ
draw = 0 ∷ 0 ∷ 0 ∷ 0 ∷ 0 ∷ 0 ∷ 0 ∷ 6 ∷ []

abbrev frame_bytes : (type circuit_id size : ℕ) → List ℕ → List ℕ
frame_bytes type circuit_id size payload =
    1 ∷ type ∷ 0 ∷ 0 ∷ 0 ∷ 0 ∷ 0 ∷ 0 ∷ 0 ∷ 0 ∷ 0 ∷ circuit_id ∷ 0 ∷ 0 ∷ 0 ∷ 0 ∷ 0 ∷ 0 ∷ 0 ∷ size
    ∷ payload

abbrev request : List ℕ
request = frame_bytes circuit_create 8 53 (4 ∷ (name ++ replicate 48 7))

abbrev at_moment : List (Event ℕ) → List (Environment × Event ℕ)
at_moment [] = []
at_moment (event ∷ rest) = (moment, event) ∷ at_moment rest

abbrev story : List (Environment × Event ℕ)
story = at_moment (
    asks_in 9
    ∷ service_comes (replicate 32 4) 9
    ∷ says [] 0 (frame_bytes auth 0 1 (0x7b ∷ []))
    ∷ key_found 0 proof (some (2 ∷ []))
    ∷ asks_in 8
    ∷ client_comes 8
    ∷ says (draw ∷ []) 1 request
    ∷ [])

-- The names that a run opens.
running : Unit {0}
unfolding run step admit answer accept_client accept_service new_connection receive route is_ready
    receive_from_client create_circuit admit_circuit place_circuit open_pending share_refusal
    is_full live_service free_id reject send_to receive_unauthenticated wrong_frame is_awaiting
    verify_service is_proof contend register same_key set_connection set_circuit count output
    find_service set_service same_text allow_create allow_auth new_entry admit_entry Ips.admit
    refill take Limits.create increment decrement at_least lookup insert text_decode without_mark
    utf8_from utf8_step u16_of u32_of u64_of create size at_capacity get has add is_some
    generate_circuit_id id_of_bytes decode_frame read_frame declared_length stray_flags
    is_frame_type allowed_flags is_canonical_name is_label split split_at decode_circuit_create
running = tt

abbrev told : Relay
told = run trusting identity story (start default_limits)

story_counts : (told.circuit_count ≡ pos 1) × ((told.connection 1).pending ≡ pos 1)
unfolding running
story_counts = (refl, refl)

story_tables :
    (get (told.connection 1).circuits 8 ≡ some 0)
    × (get (told.connection 0).circuits 6 ≡ some 0)
    × (find_service name told.services ≡ some 0)
unfolding running
story_tables = (refl, refl, refl)

-- Three requests at once, and one after 100 ms, to a bucket of two tokens that gains ten a second.
requests_granted : (take_all (Limits.create 2 100 0) (0 ∷ 0 ∷ 0 ∷ 100 ∷ [])).0 ≡ 3
unfolding take_all take refill Limits.create
requests_granted = refl

take_all-create_example :
    (take_all (Limits.create 2 100 0) (0 ∷ 0 ∷ 0 ∷ 100 ∷ [])).0 * token ≤ 2 * token + 100 * 100
take_all-create_example =
    take_all-create 2 100 0 100 (0 ∷ 0 ∷ 0 ∷ 100 ∷ []) (omega arith) (omega arith) (omega arith)

abbrev data_bytes : List ℕ
data_bytes = frame_bytes stream_data 8 2 (6 ∷ 7 ∷ [])

abbrev data_frame : Frame
data_frame = record {
  version = 1;
  type = stream_data;
  flags = 0;
  circuit_id = 8;
  stream_id = 0;
  payload = 6 ∷ 7 ∷ [];
}

decode_data_bytes : decode_frame data_bytes ≡ ok data_frame
unfolding running
decode_data_bytes = refl

decode_frame-readdressed_example :
    decode_frame (readdressed data_bytes 6) ≡ ok (record data_frame { circuit_id = 6 })
decode_frame-readdressed_example =
    decode_frame-readdressed data_bytes data_frame 6 (omega arith) decode_data_bytes

-- A second client, which names the first one's circuit.
abbrev crowded : Relay
crowded = run trusting identity (at_moment (client_comes 7 ∷ [])) told

second-IsSpeaking : IsSpeaking (crowded.connection 2)
unfolding running
second-IsSpeaking = (refl, inl refl)

second-IsForeign : IsForeign 2 data_frame crowded
unfolding running
second-IsForeign = record { carries = inl refl; absent = refl }

receive-foreign_example : receive trusting identity moment [] 2 data_bytes crowded ≡ (
  record crowded {
    counters = record crowded.counters { frames_dropped = suc crowded.counters.frames_dropped };
  },
  none,
)
receive-foreign_example =
    receive-foreign trusting identity moment [] 2 data_bytes data_frame crowded second-IsSpeaking
      (omega arith) decode_data_bytes second-IsForeign

abbrev tracked : IpTable
tracked = (Ips.admit default_limits 9 10 []).1

tracked-IsTracked : IsTracked default_limits tracked
unfolding running
tracked-IsTracked = record { tracked = omega arith; each = (omega arith, tt) }

operations-IsTracked_example :
    IsTracked default_limits (Ips.admit default_limits 9 20 tracked).1
    × IsTracked default_limits (release 9 tracked)
    × IsTracked default_limits (allow_create 9 20 tracked).1
    × IsTracked default_limits (allow_auth 9 20 tracked).1
    × IsTracked default_limits (Ips.sweep 20 tracked)
operations-IsTracked_example = operations-IsTracked default_limits 9 20 tracked tracked-IsTracked

-- Another node with a good proof for the name that the first one serves.
abbrev rival_trust : Trust ℕ
rival_trust = record trusting {
  verify_chain = λ chain root now scope. ok (record { key = 4 ∷ []; not_after = 1000 });
}

abbrev contested : Relay
contested =
    run trusting identity
      (at_moment (
        asks_in 6
        ∷ service_comes (replicate 32 5) 6
        ∷ says [] 2 (frame_bytes auth 0 1 (0x7b ∷ []))
        ∷ []))
      told

contested_before :
    (find_service name contested.services ≡ some 0)
    × ((contested.connection 0).closed ≡ false)
    × ((contested.connection 2).name ≡ none)
unfolding running
contested_before = (refl, refl, refl)

contested_key : (contested.connection 0).node_key ≡ some (3 ∷ [])
unfolding running
contested_key = refl

newcomer-IsRival :
    (root : List ℕ) → some (2 ∷ []) ≡ some root → IsRival rival_trust 10 proof root 0 contested
unfolding same_key same_text
newcomer-IsRival root e subject f =
    let other : subject.key ≡ 4 ∷ [] = ground arith in rw (contested_key, other) refl

verify_service-incumbent_example :
    (find_service name
        (verify_service rival_trust moment 2 proof (some (2 ∷ [])) contested).services
      ≡ some 0)
    × (((verify_service rival_trust moment 2 proof (some (2 ∷ [])) contested).connection 0).closed
        ≡ false)
verify_service-incumbent_example =
    verify_service-incumbent rival_trust moment 2 0 proof (some (2 ∷ [])) contested
      contested_before.0 contested_before.1 (omega arith) contested_before.2 newcomer-IsRival

draws-IsUseless : All (IsUseless (λ i. i == 6)) ((0 ∷ []) ∷ (6 ∷ []) ∷ [])
unfolding id_of_bytes
draws-IsUseless = (inl refl, (inr refl, tt))

seven : (id_of_bytes (7 ∷ []) ≢ 0) × ((id_of_bytes (7 ∷ []) == 6) ≡ false)
unfolding id_of_bytes
seven = (λ e. ground arith, refl)
