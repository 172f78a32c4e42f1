-- ===== src/Crypto/Runs.antt =====
-- Certificates, grants and proofs at concrete values, with a scheme in which a signature begins with
-- the signer's key.
use tnp.Prelude.{
  ℕ, ◌≡◌, refl, true, false, none, some, List, [], ◌∷◌, ◌++◌, replicate, take, drop, length, whole,
  All, arith, Result, ◌≢◌, ◌↔◌, ok, err,
}
use tnp.Prelude.Texts.{code_points, same_text}
use tnp.Prelude.Utf8.{text_encode, encode_character}
use tnp.Prelude.Bytes.{IsByte, u16_bytes, u32_bytes, u64_bytes}
use tnp.Protocol.Overlay.Name.{is_label, split, split_at}
use tnp.Crypto.Encoding.{
  encoding_error, Field, text, number, array, absent, KeyInput, raw, encoded, encode_base64, letter,
  digit, padding_of, digit_at, decode_groups, decode_base64_strict, parse_public_key, assert_uint,
  concat_bytes, push, bytes_prefixed, write_string, fixed, uint, finish, decode_field, uint_field,
}
use tnp.Crypto.Scope.{is_valid_scope, ends_with, scope_covers}
use tnp.Crypto.Grants.{
  service_node, client, purpose_text, includes, any_scoped, ParsedGrant, Grant, GrantInput, object,
  purpose_of, parse_purposes, purposes_field, unscoped, scope_field, key_field, parse_unsigned,
  text_before, insert_purpose, sort, join_purposes, encode_parsed, canonical_grant_bytes,
}
use tnp.Crypto.Grants.Verifying.{
  Signatures, thrown, refused, revoked, VerifiedChain, VerifyOptions, parse_keys, has_key,
  has_repeat, signature_field, parse_chain, is_rolled_back, holds_all, is_within, check_link,
  root_of, issuers, serials_of, check_grant, check_grants, check_chain, verify_chain_core,
  is_scope_given, is_scope_met, verify_chain,
}
use tnp.Crypto.Grants.Answers.{verify_chain-IsVerified, verify_chain-no_throw}
use tnp.Crypto.Grants.Bytes.{IsSameGrant, canonical_grant_bytes-injective}
use tnp.Crypto.Grants.Verified.{IsVerified}
use tnp.Crypto.Encoding.Base64.{decode_base64_strict-encode}
use tnp.Crypto.Scope.Labels.{IsUnder, scope_covers-IsUnder}
use tnp.Crypto.Primitives.{
  assert_canonical_x25519, assert_valid_x25519_public_key, low_order_probe, little_endian,
  is_all_zero,
}
use tnp.Crypto.KeyAgreement.{
  role_text, role_field, name_field, or_invalid, signature_of, encode_certificate,
  make_verified_key, requested, check_revoked, parse_certificate, check_certificate,
  verify_key_agreement_certificate,
}
use tnp.Crypto.ServiceAuth.{units, encode_statement, verify_service_auth}

running : Unit {0}
unfolding code_points same_text text_encode encode_character u16_bytes u32_bytes u64_bytes is_label
    split split_at encode_base64 letter digit padding_of digit_at decode_groups decode_base64_strict
    parse_public_key assert_uint concat_bytes push bytes_prefixed write_string fixed uint finish
    decode_field uint_field is_valid_scope ends_with scope_covers purpose_text includes any_scoped
    purpose_of parse_purposes purposes_field unscoped scope_field key_field parse_unsigned
    text_before insert_purpose sort join_purposes encode_parsed canonical_grant_bytes parse_keys
    has_key has_repeat signature_field parse_chain is_rolled_back holds_all is_within check_link
    root_of issuers serials_of check_grant check_grants check_chain verify_chain_core is_scope_given
    is_scope_met verify_chain assert_canonical_x25519 assert_valid_x25519_public_key low_order_probe
    little_endian is_all_zero role_text role_field name_field or_invalid signature_of
    encode_certificate make_verified_key requested check_revoked parse_certificate check_certificate
    verify_key_agreement_certificate units encode_statement verify_service_auth
running = tt

abbrev pub signing : Signatures
signing = record {
  sign = λ message secret. drop 32 secret ++ replicate 32 (length message);
  verify = λ message signature key. same_text (take 32 signature) key;
}

abbrev pub key_of : ℕ → List ℕ
key_of n = replicate 32 n

abbrev pub key_text : ℕ → Field
key_text n = text (encode_base64 (key_of n))

abbrev pub signed_by : ℕ → Field
signed_by n = text (encode_base64 (key_of n ++ replicate 32 0))

abbrev pub example_ox : List ℕ
example_ox = code_points "example.ox"

-- The device 5 lets the node 3 serve example.ox.
abbrev node_grant : Grant
node_grant = record {
  issuer = key_text 5;
  subject = key_text 3;
  purposes = array (some (code_points "service-node") ∷ []);
  not_before = number (whole 100);
  not_after = number (whole 200);
  serial = number (whole 1);
  scope = text example_ox;
  signature = signed_by 5;
  has_more = false;
}

-- The identity 9 lets the device 5 delegate.
abbrev device_grant : Grant
device_grant = record {
  issuer = key_text 9;
  subject = key_text 5;
  purposes = array (some (code_points "service-node") ∷ some (code_points "delegate") ∷ []);
  not_before = number (whole 50);
  not_after = number (whole 300);
  serial = number (whole 7);
  scope = text (code_points "ox");
  signature = signed_by 9;
  has_more = false;
}

abbrev pub chain : List GrantInput
chain = object node_grant ∷ object device_grant ∷ []

abbrev pub at_150 : List KeyInput → VerifyOptions
at_150 keys = record {
  trusted_roots = encoded (encode_base64 (key_of 9)) ∷ [];
  now = whole 150;
  revoked_keys = keys;
  known_serials = λ issuer subject. none;
}

abbrev pub verified : VerifiedChain
verified = record {
  purposes = service_node ∷ [];
  subject = key_of 3;
  scope = some example_ox;
  not_before = 100;
  not_after = 200;
  serials = (key_of 5, key_of 3, 1) ∷ (key_of 9, key_of 5, 7) ∷ [];
}

accepted : verify_chain signing chain (at_150 []) service_node (some example_ox) ≡ ok verified
unfolding running
accepted = refl

revoked_device :
    verify_chain signing chain (at_150 (raw (key_of 5) ∷ [])) service_node (some example_ox)
    ≡ err (refused revoked "issuer is revoked")
unfolding running
revoked_device = refl

verify_chain-IsVerified_example :
    IsVerified signing chain (at_150 []) service_node verified
    × ((s : List ℕ) → some example_ox ≡ some s → some example_ox ≡ some s)
    × (true ≡ true → (s : List ℕ) × (some example_ox ≡ some s) × (is_valid_scope s ≡ true))
verify_chain-IsVerified_example =
    verify_chain-IsVerified signing chain (at_150 []) service_node (some example_ox) verified
      accepted

abbrev malformed_chain : List GrantInput
malformed_chain = object (record node_grant { subject = absent }) ∷ []

options_in_order :
    (assert_uint (whole 150) ≡ ok tt)
    × (parse_keys (encoded (encode_base64 (key_of 9)) ∷ []) ≡ ok (key_of 9 ∷ []))
    × (parse_keys [] ≡ ok [])
unfolding running
options_in_order = (refl, refl, refl)

verify_chain-no_throw_example :
    verify_chain signing malformed_chain (at_150 []) client none
    ≢ err (thrown (encoding_error "expected 32 bytes"))
verify_chain-no_throw_example =
    verify_chain-no_throw signing malformed_chain (at_150 []) client none (key_of 9 ∷ []) []
      options_in_order.0 options_in_order.1 options_in_order.2 (encoding_error "expected 32 bytes")

-- What a computation that succeeds gives.
abbrev pub given {ℓ κ} : {E : Type ℓ} {A : Type κ} → A → Result E A → A
given a (ok b) = b
given a (err e) = a

-- A device's grant as it is signed, and one that lists its purposes the other way round.
abbrev unsigned : GrantInput
unsigned = object (record device_grant { signature = absent })

abbrev turned : GrantInput
turned = object (record device_grant {
  signature = absent;
  purposes = array (some (code_points "delegate") ∷ some (code_points "service-node") ∷ []);
})

abbrev pub signed_bytes : List ℕ
signed_bytes = given [] (canonical_grant_bytes unsigned)

same_bytes :
    (canonical_grant_bytes unsigned ≡ ok signed_bytes)
    × (canonical_grant_bytes turned ≡ ok signed_bytes)
unfolding running
same_bytes = (refl, refl)

canonical_grant_bytes-injective_example :
    (p : ParsedGrant) × (q : ParsedGrant) × (parse_unsigned unsigned false ≡ ok p)
    × (parse_unsigned turned false ≡ ok q)
    × IsSameGrant p q
canonical_grant_bytes-injective_example =
    canonical_grant_bytes-injective unsigned turned signed_bytes same_bytes.0 same_bytes.1

scope_covers-IsUnder_example :
    (scope_covers (code_points "ox") example_ox ≡ true)
    ↔ (is_valid_scope (code_points "ox") ≡ true)
      × (is_valid_scope example_ox ≡ true)
      × IsUnder (code_points "ox") example_ox
scope_covers-IsUnder_example = scope_covers-IsUnder (code_points "ox") example_ox

covered :
    (scope_covers (code_points "example.ox") (code_points "www.example.ox") ≡ true)
    × (scope_covers (code_points "example.ox") (code_points "badexample.ox") ≡ false)
unfolding running
covered = (refl, refl)

bytes_in_range : All IsByte (0xff ∷ 0 ∷ 0x10 ∷ 7 ∷ [])
bytes_in_range = ground arith

decode_base64_strict-encode_example :
    (decode_base64_strict (code_points "/wAQBw==") 4 ≡ ok (0xff ∷ 0 ∷ 0x10 ∷ 7 ∷ []))
    ↔ (encode_base64 (0xff ∷ 0 ∷ 0x10 ∷ 7 ∷ []) ≡ code_points "/wAQBw==")
decode_base64_strict-encode_example =
    decode_base64_strict-encode (code_points "/wAQBw==") (0xff ∷ 0 ∷ 0x10 ∷ 7 ∷ []) bytes_in_range

-- Trailing bits that are not zero, and the alphabet of URLs.
respelled :
    (decode_base64_strict (code_points "/wAQBx==") 4 ≡ err (encoding_error "non-canonical base64"))
    × (decode_base64_strict (code_points "_wAQBw==") 4
        ≡ err (encoding_error "non-canonical base64 character"))
unfolding running
respelled = (refl, refl)
