-- ===== src/Protocol/Session/Handshake/Runs.antt =====
-- A handshake with toy primitives that meet the laws, and the theorems at concrete inputs.
use tnp.Prelude.{
  ◌^◌, ℕ, ◌+◌, ◌≡◌, refl, true, false, none, some, List, [], ◌∷◌, ◌++◌, length, length-replicate,
  replicate, get_or, arith, ok, err,
}
use tnp.Prelude.Counts.{pos}
use tnp.Prelude.Bytes.{u16_bytes, u32_bytes}
use tnp.Prelude.Texts.{code_points, same_text}
use tnp.Prelude.Utf8.{text_encode, encode_character}
use tnp.Protocol.Overlay.Name.{is_label, split, split_at}
use tnp.Crypto.Encoding.{write_string, bytes_prefixed, push, fixed, finish, concat_bytes}
use tnp.Crypto.Scope.{is_valid_scope}
use tnp.Crypto.Primitives.{
  Primitives, ArePrimitives, X25519KeyPair, x25519_key_pair_from_secret, assert_canonical_x25519,
  assert_valid_x25519_public_key, low_order_probe, little_endian, is_all_zero, x25519,
}
use tnp.Crypto.KeyAgreement.{service_node, role_text, VerifiedKey}
use tnp.Protocol.ErrorCode.{protocol_violation}
use tnp.Protocol.Noise.Pattern.{new_initiator, new_responder}
use tnp.Protocol.Noise.Agreement.{IsKeyPair}
use tnp.Protocol.Session.{ResolvedLimits, resolve_limits, in_range, session_error}
use tnp.Protocol.Session.Runs.{toy, toy_law}
use tnp.Protocol.Session.Handshake.{
  session, session_prologue, returned, is_past, SessionLimits, ClientHandshake, ServerHandshake,
  client_handshake, server_handshake, start, finish_handshake, respond, new,
}
use tnp.Protocol.Session.Handshake.Agreement.{Established, handshake-Established}
use tnp.Protocol.Session.Handshake.Binding.{methods-single_use}

-- A point is a list, and an exchange adds two of them.
add : List ℕ → List ℕ → List ℕ
add [] t = []
add (x ∷ s) [] = []
add (x ∷ s) (y ∷ t) = (x + y) ∷ add s t

add_comm : (s t : List ℕ) → add s t ≡ add t s
unfolding add
add_comm [] [] = refl
add_comm [] (y ∷ t) = refl
add_comm (x ∷ s) [] = refl
add_comm (x ∷ s) (y ∷ t) = let first : x + y ≡ y + x = omega arith in rw (first, add_comm s t) refl

abbrev toy_primitives : Primitives
toy_primitives = record {
  scalar_mult = add;
  base = λ s. s;
  sha256 = λ d. replicate 32 (length d);
  hkdf = λ ikm salt info n. replicate n (get_or ikm 0 0 + get_or salt 0 0);
}

toy_primitives_law : ArePrimitives toy_primitives
toy_primitives_law = record {
  length-base = λ s h. h;
  length-sha256 = λ d. length-replicate 32 (length d);
  length-hkdf = λ ikm salt info n. length-replicate n (get_or ikm 0 0 + get_or salt 0 0);
  exchange = λ s t h k. add_comm s t;
}

running : Unit {0}
unfolding add text_encode encode_character code_points same_text u16_bytes u32_bytes write_string
    bytes_prefixed push fixed finish concat_bytes x25519_key_pair_from_secret
    assert_canonical_x25519 assert_valid_x25519_public_key low_order_probe little_endian is_all_zero
    x25519 role_text resolve_limits in_range session_prologue is_past client_handshake
    server_handshake is_label split split_at is_valid_scope
running = tt

abbrev pair : ℕ → X25519KeyPair
pair n = record { public_key = replicate 32 n; secret_key = replicate 32 n }

abbrev name : List ℕ
name = code_points "example.ox"

abbrev certified : VerifiedKey
certified = record {
  public_key = replicate 32 7;
  role = service_node;
  scope = name;
  not_after = 1000;
}

abbrev defaults : SessionLimits
defaults = record { max_records = none; interval = none }

abbrev resolved : ResolvedLimits
resolved = record { max_records_per_key = 2 ^ 32; key_update_interval = 2 ^ 24 }

abbrev prologue : List ℕ
prologue =
    0
    ∷ 0
    ∷ 0
    ∷ 14
    ∷ (code_points "tnp-session-v1"
        ++ (1 ∷ 0 ∷ 0 ∷ 0 ∷ 12 ∷ (code_points "service-node" ++ (0 ∷ 0 ∷ 0 ∷ 10 ∷ (name ++ [])))))

prologue_test : session_prologue service_node name ≡ ok prologue
unfolding running
prologue_test = refl

valid_name : is_valid_scope name ≡ true
unfolding running
valid_name = refl

abbrev client : ClientHandshake
client = record {
  noise = new_initiator toy_primitives prologue (replicate 32 7) (pair 3);
  limits = resolved;
  state = new;
}

abbrev server : ServerHandshake
server = record {
  noise = new_responder toy_primitives prologue (pair 7) (pair 5);
  limits = resolved;
  used = false;
}

client_made :
    client_handshake toy_primitives (returned certified) name (some (pos 999)) defaults (pair 3)
    ≡ ok client
unfolding running
client_made = refl

server_made : server_handshake toy_primitives (pair 7) name none defaults (pair 5) ≡ ok server
unfolding running
server_made = refl

key_pair : IsKeyPair toy_primitives (pair 3) × IsKeyPair toy_primitives (pair 5)
unfolding running
key_pair = (
  record { derived = refl; secret_size = refl; canonical = refl },
  record { derived = refl; secret_size = refl; canonical = refl },
)

not_refused :
    (is_all_zero (add (replicate 32 3) (replicate 32 7)) ≡ false)
    × (is_all_zero (add (replicate 32 3) (replicate 32 5)) ≡ false)
unfolding running
not_refused = (refl, refl)

handshake-Established_example : Established toy_primitives toy client server
handshake-Established_example =
    handshake-Established toy_primitives toy toy_primitives_law toy_law certified (pair 7) (pair 3)
      (pair 5) name (some (pos 999)) none defaults client server client_made server_made refl refl
      key_pair.0 key_pair.1 not_refused.0 not_refused.1

methods-single_use_example :
    ((start toy_primitives toy (start toy_primitives toy client).1).0
      ≡ err (session (session_error "handshake already started" protocol_violation)))
    × ((finish_handshake toy_primitives toy (finish_handshake toy_primitives toy client []).1 []).0
        ≡ err (session (session_error "handshake not awaiting message 2" protocol_violation)))
    × ((respond toy_primitives toy (respond toy_primitives toy server []).1 []).0
        ≡ err (session (session_error "handshake already used" protocol_violation)))
methods-single_use_example = methods-single_use toy_primitives toy client server [] []
