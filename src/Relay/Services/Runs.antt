-- ===== src/Relay/Services/Runs.antt =====
-- A relay that is told of a node's certificates and proof, at concrete values.
use tnp.Prelude.{ℕ, ◌⊎◌, ◌≡◌, refl, true, false, none, some, List, ◌++◌, replicate, Option, ◌*◌}
use tnp.Prelude.Texts.{code_points, same_text}
use tnp.Prelude.Utf8.{text_encode, encode_character}
use tnp.Prelude.Bytes.{u16_bytes, u32_bytes, u64_bytes}
use tnp.Protocol.Overlay.Name.{is_label, split, split_at}
use tnp.Protocol.ErrorCode.{auth_expired}
use tnp.Crypto.Encoding.{
  encode_base64, letter, digit, padding_of, digit_at, decode_groups, decode_base64_strict,
  parse_public_key, assert_uint, concat_bytes, push, bytes_prefixed, write_string, fixed, uint,
  finish, decode_field, uint_field,
}
use tnp.Crypto.Scope.{is_valid_scope, ends_with, scope_covers}
use tnp.Crypto.Grants.{
  GrantInput, purpose_text, includes, any_scoped, purpose_of, parse_purposes, purposes_field,
  unscoped, scope_field, key_field, parse_unsigned, text_before, insert_purpose, sort,
  join_purposes, encode_parsed, canonical_grant_bytes,
}
use tnp.Crypto.Grants.Verifying.{
  parse_keys, has_key, has_repeat, signature_field, parse_chain, is_rolled_back, holds_all,
  is_within, check_link, root_of, issuers, serials_of, check_grant, check_grants, check_chain,
  verify_chain_core, is_scope_given, is_scope_met, verify_chain,
}
use tnp.Crypto.ServiceAuth.{units, encode_statement, verify_service_auth}
use tnp.Crypto.Runs.{signing, key_of, example_ox, chain}
use tnp.Relay.Limits.{default_limits}
use tnp.Relay.State.{
  Relay, Environment, set_connection, set_circuit, count, output, find_service, set_service,
}
use tnp.Relay.Events.{start}
use tnp.Relay.Services.{ServiceAuth, verify_service, is_proof, contend, register, same_key, refuse}
use tnp.Relay.Services.Certified.{
  crypto_trust, chain_answer, IsAuthorized, verify_service-IsAuthorized,
}

abbrev endpoint : List ℕ
endpoint = code_points "wss://relay.ox"

-- The node 3 proves itself for example.ox.
abbrev proof : ServiceAuth GrantInput
proof = record {
  name = example_ox;
  chain = chain;
  signature = encode_base64 (key_of 3 ++ replicate 32 0);
}

-- No payload holds a proof: the proof is given to `verify_service` itself.
abbrev decode : List ℕ → Option (ServiceAuth GrantInput)
decode payload = none

abbrev at_second : ℕ → Environment
at_second s = record { now = s * 1000; buffered = λ i. 0; going = λ i. false }

-- The connection 0 has been sent a challenge.
abbrev challenging : Relay
challenging =
    let r = start default_limits in
    record r {
      connection =
          λ i. record (r.connection i) { challenge = some (replicate 32 8); closed = false };
    }

abbrev proven : ℕ → Relay
proven s =
    verify_service (crypto_trust signing endpoint decode) (at_second s) 0 proof (some (key_of 9))
      challenging

running : Unit {0}
unfolding code_points same_text text_encode encode_character u16_bytes u32_bytes u64_bytes is_label
    split split_at encode_base64 letter digit padding_of digit_at decode_groups decode_base64_strict
    parse_public_key assert_uint concat_bytes push bytes_prefixed write_string fixed uint finish
    decode_field uint_field is_valid_scope ends_with scope_covers purpose_text includes any_scoped
    purpose_of parse_purposes purposes_field unscoped scope_field key_field parse_unsigned
    text_before insert_purpose sort join_purposes encode_parsed canonical_grant_bytes parse_keys
    has_key has_repeat signature_field parse_chain is_rolled_back holds_all is_within check_link
    root_of issuers serials_of check_grant check_grants check_chain verify_chain_core is_scope_given
    is_scope_met verify_chain units encode_statement verify_service_auth verify_service is_proof
    contend register same_key set_connection set_circuit count output find_service set_service
    crypto_trust chain_answer
running = tt

registered : find_service example_ox (proven 150).services ≡ some 0
unfolding running
registered = refl

-- The node's grant ends at second 200.
too_late : proven 201 ≡ refuse 0 auth_expired challenging
unfolding running
too_late = refl

verify_service-IsAuthorized_example :
    ((challenging.connection 0).closed ≡ true) × (proven 150 ≡ challenging)
    ⊎ ((code : ℕ) × (proven 150 ≡ refuse 0 code challenging))
    ⊎ IsAuthorized signing endpoint decode
        (at_second 150)
        0
        proof
        (some (key_of 9))
        challenging
        (proven 150)
verify_service-IsAuthorized_example =
    verify_service-IsAuthorized signing endpoint decode (at_second 150) 0 proof (some (key_of 9))
      challenging
