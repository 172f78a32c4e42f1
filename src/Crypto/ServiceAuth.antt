-- ===== src/Crypto/ServiceAuth.antt =====
-- packages/crypto/src/service-auth.ts: the proof that a service node sends to a relay.
pub mod Binding
use tnp.Prelude.{
  ℕ, suc, ◌==◌, Bool, false, not, ◌&&◌, ltb, leb, if◌then◌else◌, List, [], ◌∷◌, length, Result, ok,
  err, ◌>>=◌, ◌>>◌, require,
}
use tnp.Prelude.Texts.{code_points}
use tnp.Crypto.Encoding.{
  EncodingError, encoding_error, KeyInput, parse_public_key, public_key_length, signature_length,
  decode_base64_strict, encode_base64, new_writer, write_string, fixed, finish,
}
use tnp.Crypto.Scope.{is_valid_scope}
use tnp.Crypto.Grants.Verifying.{Signatures, assert_secret_matches}

abbrev pub service_auth_challenge_size : ℕ
service_auth_challenge_size = 32

abbrev pub max_endpoint_length : ℕ
max_endpoint_length = 512

abbrev pub service_auth_context : List ℕ
service_auth_context = code_points "tnp-relay-service-auth-v1"

pub record ServiceAuthStatement : Type 0 where
  pub name : List ℕ
  pub endpoint : List ℕ
  pub challenge : List ℕ
  pub node_key : KeyInput

-- `endpoint.length`: a code point past 0xffff counts twice.
unfoldable pub units : List ℕ → ℕ
units [] = 0
units (c ∷ s) = if ltb c 0x1_0000 then suc (units s) else suc (suc (units s))

unfoldable pub encode_statement : ServiceAuthStatement → Result EncodingError (List ℕ)
encode_statement s = do
  require (is_valid_scope s.name) (encoding_error "name is not a canonical name")
  require (not (units s.endpoint == 0) && leb (units s.endpoint) max_endpoint_length)
      (encoding_error "endpoint is missing or too long")
  require (length s.challenge == service_auth_challenge_size)
      (encoding_error "challenge must be 32 bytes")
  let texts =
      write_string (write_string (write_string new_writer service_auth_context) s.name) s.endpoint
  challenged ← fixed texts s.challenge service_auth_challenge_size
  key ← parse_public_key s.node_key
  keyed ← fixed challenged key public_key_length
  ok (finish keyed)

-- `catch { return false }`
abbrev pub or_false : Result EncodingError Bool → Bool
or_false (ok b) = b
or_false (err e) = false

module _ (scheme : Signatures) where
  unfoldable pub sign_service_auth :
      ServiceAuthStatement → (secret : List ℕ) → Result EncodingError (List ℕ)
  sign_service_auth s secret = do
    bytes ← encode_statement s
    key ← parse_public_key s.node_key
    assert_secret_matches secret key
    ok (encode_base64 (scheme.sign bytes secret))

  unfoldable pub verify_service_auth : ServiceAuthStatement → (signature : List ℕ) → Bool
  verify_service_auth s signature = or_false (do
    bytes ← encode_statement s
    decoded ← decode_base64_strict signature signature_length
    key ← parse_public_key s.node_key
    ok (scheme.verify bytes decoded key))
