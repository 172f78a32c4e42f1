-- ===== src/Protocol/Session/Runs.antt =====
-- A toy cipher that meets the laws, concrete sessions, and the theorems at concrete inputs.
use tnp.Prelude.{
  ℕ, zero, suc, ◌<◌, ◌≡◌, refl, ◌⊎◌, false, Option, none, some, List, [], ◌∷◌, ◌++◌, arith,
  length-append, replicate, get_or, drop, ◌==◌, if◌then◌else◌, ok, err, whole,
}
use tnp.Prelude.Bytes.{u64_bytes, u64_bytes_le, wipe}
use tnp.Protocol.ErrorCode.{protocol_violation, replay_detected, truncated}
use tnp.Protocol.FrameType.{stream_data, is_frame_type, allowed_flags}
use tnp.Protocol.Frame.{stray_flags}
use tnp.Protocol.Noise.{Aead, IsAead, encrypt_with_ad, decrypt_with_ad, rekey, noise_nonce}
use tnp.Protocol.Session.{
  ResolvedLimits, resolve_limits, in_range, RecordHeader, frame_associated_data, valid_flags,
  Session, SessionError, create, poison, plain, close, key_update, session, session_error,
  assert_can_send, seal_record, seal, close_session, update_key, open_inner, open_record, open_next,
  poisoned, type_of, counter_of, transport_ended,
}
use tnp.Protocol.Session.Bounds.{frame_associated_data-injective}
use tnp.Protocol.Session.Channel.{Send, data_of, update_of, close_of, send, IsSynced}
use tnp.Protocol.Session.Stream.{send_all, open_all, intended, open_all-send_all}
use tnp.Protocol.Session.Nonces.{nonces}
use tnp.Protocol.Session.Failure.{
  IsDead, contents, open_next-IsDead, open_next-exact, open_next-other_counter,
}
use tnp.Protocol.Session.Truncation.{Any, open_many, transport_ended-open_many}

unfoldable pub strip : ℕ → ℕ → List ℕ → Option (List ℕ)
strip zero t c = some c
strip (suc n) t [] = none
strip (suc n) t (x ∷ c) = if x == t then strip n t c else none

strip-replicate : (n t : ℕ) (p : List ℕ) → strip n t (replicate n t ++ p) ≡ some p
unfolding strip
strip-replicate zero t p = refl
strip-replicate (suc n) t p = ground (arith, strip-replicate n t p)

replicate-strip : (n t : ℕ) (c p : List ℕ) → strip n t c ≡ some p → replicate n t ++ p ≡ c
unfolding strip
replicate-strip zero t c p e = ground arith
replicate-strip (suc n) t [] p e = absurd (ground arith)
replicate-strip (suc n) t (x ∷ c) p e = ground (arith, replicate-strip n t c p)

-- The tag is the key's first byte, sixteen times.
abbrev pub toy : Aead
unfolding strip
toy = record {
  aead_seal = λ k n ad p. replicate 16 (get_or k 0 0) ++ p;
  aead_open = λ k n ad c. strip 16 (get_or k 0 0) c;
}

pub toy_law : IsAead toy
unfolding strip
toy_law = record {
  length-seal = λ k n ad p. omega (arith, length-append (replicate 16 (get_or k 0 0)) p);
  open-seal = λ k n ad p. strip-replicate 16 (get_or k 0 0) p;
  seal-open = λ k n ad c p e. replicate-strip 16 (get_or k 0 0) c p e;
}

abbrev limits : ResolvedLimits
limits = record { max_records_per_key = 3; key_update_interval = 2 }

abbrev key : ℕ → List ℕ
key k = replicate 32 k

-- The two ends of a handshake: what one sends with, the other receives with.
abbrev fresh : ℕ → ℕ → Session
fresh k l = record {
  send_key = key k;
  receive_key = key l;
  send_counter = 0;
  receive_counter = 0;
  sent_close = false;
  received_close = false;
  failed = none;
  hash = [];
  limits = limits;
}

abbrev client : Session
client = fresh 5 6

abbrev server : Session
server = fresh 6 5

create_test : create (key 5) (key 6) [] limits ≡ client
unfolding create
create_test = refl

abbrev header : RecordHeader
header = record { type = stream_data; flags = whole 0; stream_id = whole 1 }

abbrev other_header : RecordHeader
other_header = record header { stream_id = whole 2 }

abbrev header_ad : List ℕ
header_ad = 1 ∷ 0x22 ∷ 0 ∷ 0 ∷ 0 ∷ 0 ∷ 0 ∷ 1 ∷ []

header_bound : frame_associated_data header ≡ ok header_ad
unfolding frame_associated_data is_frame_type allowed_flags valid_flags in_range stray_flags
header_bound = refl

-- Two texts, where the third would need the reserved counter; a new key; a text; the close.
abbrev sends : List Send
sends =
    data_of (1 ∷ []) header
    ∷ data_of (2 ∷ []) header
    ∷ data_of (3 ∷ []) header
    ∷ update_of header
    ∷ data_of (4 ∷ []) header
    ∷ close_of header
    ∷ data_of (5 ∷ []) header
    ∷ []

running : Unit {0}
unfolding create seal close_session update_key assert_can_send seal_record open_next open_record
    open_inner poisoned poison type_of counter_of frame_associated_data is_frame_type allowed_flags
    valid_flags in_range stray_flags encrypt_with_ad decrypt_with_ad rekey noise_nonce u64_bytes_le
    wipe send send_all open_all nonces open_many transport_ended strip u64_bytes
running = tt

-- A cipher whose new keys begin with the successor of the old key's first byte.
abbrev counting : Aead
counting = record {
  aead_seal = λ k n ad p. replicate 16 (suc (get_or k 0 0)) ++ p;
  aead_open = λ k n ad c. none;
}

abbrev second_key : List ℕ
second_key = replicate 16 6 ++ replicate 16 0

-- What went out: the third text was refused, and nothing follows the close.
nonces_test :
    nonces counting client sends
    ≡ (key 5, 0) ∷ (key 5, 1) ∷ (key 5, 2) ∷ (second_key, 0) ∷ (second_key, 1) ∷ []
unfolding running
nonces_test = refl

open_test :
    (open_all toy server (send_all toy client sends).0).0
    ≡ ok (plain (1 ∷ []))
      ∷ ok (plain (2 ∷ []))
      ∷ ok key_update
      ∷ ok (plain (4 ∷ []))
      ∷ ok close
      ∷ []
unfolding running
open_test = refl

client-server-IsSynced : IsSynced client server
client-server-IsSynced = record {
  keys = refl;
  counters = refl;
  closes = refl;
  sender_lives = refl;
  receiver_lives = refl;
  same_limit = refl;
  limit = omega arith;
}

open_all-send_all_example :
    ((open_all toy server (send_all toy client sends).0).0 ≡ intended (send_all toy client sends).0)
    × IsSynced (send_all toy client sends).1 (open_all toy server (send_all toy client sends).0).1
open_all-send_all_example = open_all-send_all toy toy_law sends client server client-server-IsSynced

-- The first record of `client`, and one that claims the counter 1.
abbrev first_record : List ℕ
first_record = replicate 8 0 ++ (replicate 16 5 ++ (0 ∷ 1 ∷ []))

abbrev later_record : List ℕ
later_record = replicate 7 0 ++ (1 ∷ (replicate 16 5 ++ (0 ∷ 1 ∷ [])))

open_first :
    open_next toy server first_record header
    ≡ (ok (plain (1 ∷ [])), record server { receive_counter = 1 })
unfolding running
open_first = refl

open_next-exact_example :
    (server.failed ≡ none)
    × (server.received_close ≡ false)
    × (counter_of first_record ≡ 0)
    × (0 < 3)
    × (ad : List ℕ) × (frame_associated_data header ≡ ok ad)
    × (drop 8 first_record ≡ encrypt_with_ad toy (key 5) 0 ad (contents (plain (1 ∷ []))))
open_next-exact_example =
    open_next-exact toy toy_law server (record server { receive_counter = 1 }) first_record header
      (plain (1 ∷ [])) open_first

open_next-other_counter_example :
    (e : SessionError) × ((open_next toy server later_record header).0 ≡ err (session e))
    × ((open_next toy server later_record header).1.failed ≡ some e)
    × (((counter_of later_record < 0) × (e.code ≡ replay_detected))
        ⊎ ((0 < counter_of later_record) × (e.code ≡ protocol_violation)))
open_next-other_counter_example =
    open_next-other_counter toy server later_record header_ad header refl refl header_bound
      (omega arith) (omega arith) (unfold counter_of in omega arith)

abbrev out_of_order : SessionError
out_of_order = session_error "record out of order" protocol_violation

dead : Session
unfolding poison
dead = poison server out_of_order

open_later : open_next toy server later_record header ≡ (err (session out_of_order), dead)
unfolding running dead
open_later = refl

open_next-IsDead_example : IsDead toy dead out_of_order
open_next-IsDead_example =
    open_next-IsDead toy server dead later_record header out_of_order open_later

transport_ended-open_many_example :
    Any
      (λ res. res ≡ ok close)
      (open_many toy (create (key 6) (key 5) [] limits) ((first_record, header) ∷ [])).0
    ⊎ ((e : SessionError) × ((transport_ended
            (open_many toy (create (key 6) (key 5) [] limits) ((first_record, header) ∷ [])).1).0
          ≡ err (session e))
        × (((open_many toy
                (create (key 6) (key 5) [] limits)
                ((first_record, header) ∷ [])).1.failed
              ≡ some e)
            ⊎ (e.code ≡ truncated)))
transport_ended-open_many_example =
    transport_ended-open_many toy (key 6) (key 5) [] limits ((first_record, header) ∷ [])

resolve_test : resolve_limits (some (whole 3)) none ≡ ok limits
unfolding resolve_limits in_range
resolve_test = refl

frame_associated_data-injective_example : header ≡ header
frame_associated_data-injective_example =
    frame_associated_data-injective header header header_ad (omega arith) (omega arith) header_bound
      header_bound
