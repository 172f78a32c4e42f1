-- ===== src/Crypto/KeyAgreement/Runs.antt =====
-- A certificate and a proof at concrete values.
use tnp.Prelude.{
  ◌≡◌, refl, true, false, none, some, [], ◌∷◌, ◌++◌, replicate, whole, All, arith, ◌≢◌, ok,
}
use tnp.Prelude.Texts.{code_points, same_text}
use tnp.Prelude.Utf8.{text_encode, encode_character}
use tnp.Prelude.Bytes.{u16_bytes, u32_bytes, u64_bytes}
use tnp.Protocol.Overlay.Name.{is_label, split, split_at}
use tnp.Crypto.Encoding.{
  text, number, raw, encoded, encode_base64, letter, digit, padding_of, digit_at, decode_groups,
  decode_base64_strict, parse_public_key, assert_uint, concat_bytes, push, bytes_prefixed,
  write_string, fixed, uint, finish, decode_field, uint_field,
}
use tnp.Crypto.Scope.{is_valid_scope, ends_with, scope_covers}
use tnp.Crypto.Grants.{
  delegate, purpose_text, includes, any_scoped, ParsedGrant, purpose_of, parse_purposes,
  purposes_field, unscoped, scope_field, key_field, parse_unsigned, text_before, insert_purpose,
  sort, join_purposes, encode_parsed, canonical_grant_bytes,
}
use tnp.Crypto.Grants.Verifying.{
  parse_keys, has_key, has_repeat, signature_field, parse_chain, is_rolled_back, holds_all,
  is_within, check_link, root_of, issuers, serials_of, check_grant, check_grants, check_chain,
  verify_chain_core, is_scope_given, is_scope_met, verify_chain,
}
use tnp.Crypto.Primitives.{
  Primitives, assert_canonical_x25519, assert_valid_x25519_public_key, low_order_probe,
  little_endian, is_all_zero,
}
use tnp.Crypto.KeyAgreement.{
  Role, role_text, CertificateInput, certificate, ParsedCertificate, KeyAgreementOptions,
  CertifiedKey, role_field, name_field, or_invalid, signature_of, encode_certificate,
  make_verified_key, requested, check_revoked, parse_certificate, check_certificate,
  verify_key_agreement_certificate,
}
use tnp.Crypto.KeyAgreement.Certified.{IsCertified, verify_certificate-IsCertified}
use tnp.Crypto.ServiceAuth.{ServiceAuthStatement, units, encode_statement, verify_service_auth}
use tnp.Crypto.ServiceAuth.Binding.{IsPoint, encode_statement-injective}
use tnp.Crypto.Separation.{formats-differ}
use tnp.Crypto.Runs.{
  signing, key_of, key_text, signed_by, example_ox, chain, at_150, verified, given, signed_bytes,
}

running : Unit {0}
unfolding code_points same_text text_encode encode_character u16_bytes u32_bytes u64_bytes is_label
    split split_at encode_base64 letter digit padding_of digit_at decode_groups decode_base64_strict
    parse_public_key assert_uint concat_bytes push bytes_prefixed write_string fixed uint finish
    decode_field uint_field is_valid_scope ends_with scope_covers purpose_text includes any_scoped
    purpose_of parse_purposes purposes_field unscoped scope_field key_field parse_unsigned
    text_before insert_purpose sort join_purposes encode_parsed canonical_grant_bytes parse_keys
    has_key has_repeat signature_field parse_chain is_rolled_back holds_all is_within check_link
    root_of issuers serials_of check_grant check_grants check_chain verify_chain_core is_scope_given
    is_scope_met verify_chain assert_canonical_x25519 assert_valid_x25519_public_key low_order_probe
    little_endian is_all_zero role_text role_field name_field or_invalid signature_of
    encode_certificate make_verified_key requested check_revoked parse_certificate check_certificate
    verify_key_agreement_certificate units encode_statement verify_service_auth
running = tt

-- Primitives in which every exchange gives the secret back.
abbrev curve : Primitives
curve = record {
  scalar_mult = λ secret public_key. secret;
  base = λ secret. secret;
  sha256 = λ d. replicate 32 1;
  hkdf = λ ikm salt info n. replicate n 0;
}

abbrev node_certificate : CertificateInput
node_certificate = certificate (record {
  signer = key_text 3;
  key = key_text 4;
  role = text (code_points "service-node");
  scope = text example_ox;
  not_before = number (whole 120);
  not_after = number (whole 180);
  serial = number (whole 2);
  signature = signed_by 3;
  has_more = false;
})

abbrev for_example : KeyAgreementOptions
for_example = record { options = at_150 []; role = some Role.service_node; name = example_ox }

abbrev certified : CertifiedKey
certified = record {
  key = record {
    public_key = key_of 4;
    role = Role.service_node;
    scope = example_ox;
    not_after = 180;
  };
  chain = verified;
  serial_key = (key_of 3, key_of 4);
  serial = 2;
}

certificate_accepted :
    verify_key_agreement_certificate curve signing node_certificate chain for_example ≡ ok certified
unfolding running
certificate_accepted = refl

verify_certificate-IsCertified_example :
    IsCertified curve signing node_certificate chain for_example certified
verify_certificate-IsCertified_example =
    verify_certificate-IsCertified curve signing node_certificate chain for_example certified
      certificate_accepted

abbrev statement : ServiceAuthStatement
statement = record {
  name = example_ox;
  endpoint = code_points "wss://r.ox";
  challenge = key_of 8;
  node_key = raw (key_of 3);
}

abbrev statement_text : ServiceAuthStatement
statement_text = record statement { node_key = encoded (encode_base64 (key_of 3)) }

same_statement :
    (encode_statement statement ≡ ok (given [] (encode_statement statement)))
    × (encode_statement statement_text ≡ ok (given [] (encode_statement statement)))
unfolding running
same_statement = (refl, refl)

endpoint_points : All IsPoint (code_points "wss://r.ox")
unfolding code_points
endpoint_points = ground arith

proof_accepted :
    verify_service_auth signing statement (encode_base64 (key_of 3 ++ replicate 32 0)) ≡ true
unfolding running
proof_accepted = refl

encode_statement-injective_example :
    (example_ox ≡ example_ox)
    × (code_points "wss://r.ox" ≡ code_points "wss://r.ox")
    × (key_of 8 ≡ key_of 8)
    × (parse_public_key (raw (key_of 3)) ≡ parse_public_key (encoded (encode_base64 (key_of 3))))
encode_statement-injective_example =
    encode_statement-injective statement statement_text (given [] (encode_statement statement))
      endpoint_points endpoint_points same_statement.0 same_statement.1

abbrev parsed_grant : ParsedGrant
parsed_grant = record {
  issuer = key_of 9;
  subject = key_of 5;
  purposes = delegate ∷ [];
  not_before = 1;
  not_after = 2;
  serial = 3;
  scope = none;
}

abbrev parsed_certificate : ParsedCertificate
parsed_certificate = record {
  signer = key_of 3;
  key = key_of 4;
  role = Role.service_node;
  scope = example_ox;
  not_before = 1;
  not_after = 2;
  serial = 3;
}

formats-differ_example :
    (encode_parsed parsed_grant ≡ ok signed_bytes
      → encode_certificate parsed_certificate ≢ ok signed_bytes)
    × (encode_parsed parsed_grant ≡ ok signed_bytes → encode_statement statement ≢ ok signed_bytes)
    × (encode_certificate parsed_certificate ≡ ok signed_bytes
        → encode_statement statement ≢ ok signed_bytes)
formats-differ_example = formats-differ parsed_grant parsed_certificate statement signed_bytes
