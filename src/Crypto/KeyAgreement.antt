-- ===== src/Crypto/KeyAgreement.antt =====
-- packages/crypto/src/key-agreement.ts: certificates that bind an X25519 key to an authorized node
-- key, and their verification.
pub mod Parsing
pub mod Certified
mod Runs
use tnp.Prelude.{
  ℕ, ◌-◌, ◌*◌, ◌==◌, Bool, true, false, not, ◌&&◌, ◌||◌, ltb, leb, if◌then◌else◌, Option, none,
  some, List, [], ◌∷◌, Result, ok, err, ◌>>=◌, ◌>>◌, require, whole, value,
}
use tnp.Prelude.Texts.{code_points, same_text}
use tnp.Crypto.Encoding.{
  EncodingError, encoding_error, KeyInput, parse_public_key, public_key_length, signature_length,
  Field, text, uint_field, is_absent, decode_field, new_writer, write_string, fixed, uint, finish,
  encode_base64,
}
use tnp.Crypto.Scope.{is_valid_scope, scope_covers}
use tnp.Crypto.Primitives.{Primitives, assert_valid_x25519_public_key}
use tnp.Crypto.Grants.{Purpose, GrantInput, is_text, key_field}
use tnp.Crypto.Grants.Verifying.{
  Signatures, Stop, refused, malformed, chain_broken, purpose_not_granted, scope_mismatch,
  scope_required, window_not_nested, not_yet_valid, expired, revoked, rolled_back, bad_signature,
  or_throw, or_malformed, VerifiedChain, VerifyOptions, is_within, is_rolled_back,
  verify_chain_core, assert_secret_matches,
}

-- `KeyAgreementRole`
pub data Role : Type 0 where
  service_node relay : Role

unfoldable pub role_text : Role → List ℕ
unfolding code_points
role_text service_node = code_points "service-node"
role_text relay = code_points "relay"

abbrev pub role_purpose : Role → Purpose
role_purpose service_node = Purpose.service_node
role_purpose relay = Purpose.relay

abbrev pub max_key_agreement_lifetime : ℕ
max_key_agreement_lifetime = 7 * 24 * 60 * 60

pub record Certificate : Type 0 where
  pub signer : Field
  pub key : Field
  pub role : Field
  pub scope : Field
  pub not_before : Field
  pub not_after : Field
  pub serial : Field
  pub signature : Field
  pub has_more : Bool

pub data CertificateInput : Type 0 where
  certificate : Certificate → CertificateInput
  not_object : CertificateInput

pub record ParsedCertificate : Type 0 where
  pub signer : List ℕ
  pub key : List ℕ
  pub role : Role
  pub scope : List ℕ
  pub not_before : ℕ
  pub not_after : ℕ
  pub serial : ℕ

unfoldable pub role_field : Field → Result EncodingError Role
role_field (text s) =
    if same_text s (role_text service_node)
    then ok service_node
    else if same_text s (role_text relay)
    then ok relay
    else err (encoding_error "unknown role")
role_field f = err (encoding_error "unknown role")

unfoldable pub name_field : Field → Result EncodingError (List ℕ)
name_field (text s) = do
  require (is_valid_scope s) (encoding_error "scope is not a canonical name")
  ok s
name_field f = err (encoding_error "scope is not a canonical name")

-- `catch { throw new EncodingError(…) }`
unfoldable pub or_invalid {ℓ} : {E : Type ℓ} → Result E (Unit {0}) → Result EncodingError (Unit {0})
or_invalid (ok u) = ok tt
or_invalid (err e) = err (encoding_error "key is not a valid X25519 public key")

unfoldable pub signature_of : CertificateInput → Field
signature_of (certificate c) = c.signature
signature_of not_object = Field.absent

abbrev pub key_agreement_context : List ℕ
key_agreement_context = code_points "tnp-key-agreement-v1"

unfoldable pub encode_certificate : ParsedCertificate → Result EncodingError (List ℕ)
encode_certificate c = do
  let named = write_string new_writer key_agreement_context
  with_signer ← fixed named c.signer public_key_length
  with_key ← fixed with_signer c.key public_key_length
  let scoped = write_string (write_string with_key (role_text c.role)) c.scope
  from ← uint scoped (whole c.not_before)
  until ← uint from (whole c.not_after)
  numbered ← uint until (whole c.serial)
  ok (finish numbered)

-- `VerifiedKeyAgreementKey`
pub record VerifiedKey : Type 0 where
  pub public_key : List ℕ
  pub role : Role
  pub scope : List ℕ
  pub not_after : ℕ

unfoldable pub make_verified_key : ParsedCertificate → VerifiedKey
make_verified_key c = record {
  public_key = c.key;
  role = c.role;
  scope = c.scope;
  not_after = c.not_after;
}

-- `KeyAgreementVerifyOptions`; a role that is none of the two is `none`.
pub record KeyAgreementOptions : Type 0 where
  pub options : VerifyOptions
  pub role : Option Role
  pub name : List ℕ

pub record CertifiedKey : Type 0 where
  pub key : VerifiedKey
  pub chain : VerifiedChain
  -- the signer and the key that the serial counts for
  pub serial_key : List ℕ × List ℕ
  pub serial : ℕ

abbrev pub same_role : Role → Role → Bool
same_role service_node service_node = true
same_role relay relay = true
same_role r s = false

-- `ROLE_PURPOSE[options.role]`
unfoldable pub requested : Option Role → Result Stop Role
requested none = err (refused malformed "unknown role requested")
requested (some r) = ok r

-- The loop over the revoked keys.
unfoldable pub check_revoked : List KeyInput → List ℕ → Result Stop (Unit {0})
check_revoked [] key = ok tt
check_revoked (k ∷ ks) key = do
  other ← or_throw (parse_public_key k)
  require (not (same_text other key)) (refused revoked "key-agreement key is revoked")
  check_revoked ks key

abbrev pub is_covered : Option (List ℕ) → List ℕ → Bool
is_covered none scope = false
is_covered (some outer) scope = scope_covers outer scope

module _ (scheme : Signatures) where
  -- What is checked of a certificate against its chain.
  unfoldable pub check_certificate :
      KeyAgreementOptions
      → Role
      → ParsedCertificate
      → (signature : List ℕ) → VerifiedChain
      → Result Stop CertifiedKey
  check_certificate o role parsed signature chain = do
    require (same_text chain.subject parsed.signer)
        (refused chain_broken "certificate signer is not the chain leaf")
    require (same_role parsed.role role)
        (refused purpose_not_granted "certificate is for another role")
    require (same_text parsed.scope o.name)
        (refused scope_mismatch "certificate is for another name")
    require (is_covered chain.scope parsed.scope)
        (refused scope_mismatch "certificate is outside its signer's scope")
    require (leb chain.not_before parsed.not_before && leb parsed.not_after chain.not_after)
        (refused window_not_nested "certificate outlives its signer's grant")
    require (leb parsed.not_before (value o.options.now))
        (refused not_yet_valid "certificate is not valid yet")
    require (ltb (value o.options.now) parsed.not_after) (refused expired "certificate expired")
    check_revoked o.options.revoked_keys parsed.key
    require (not (is_rolled_back (o.options.known_serials parsed.signer parsed.key) parsed.serial))
        (refused rolled_back "certificate serial is below the highest seen")
    bytes ← or_throw (encode_certificate parsed)
    require (scheme.verify bytes signature parsed.signer)
        (refused bad_signature "certificate signature does not verify")
    ok (record {
      key = make_verified_key parsed;
      chain = chain;
      serial_key = (parsed.signer, parsed.key);
      serial = parsed.serial;
    })

module _ (c : Primitives) where
  unfoldable pub parse_certificate :
      CertificateInput → Bool → Result EncodingError ParsedCertificate
  parse_certificate not_object allow_signature =
      err (encoding_error "certificate must be an object")
  parse_certificate (certificate cert) allow_signature = do
    require (not cert.has_more && (is_absent cert.signature || allow_signature))
        (encoding_error "certificate has an unexpected field")
    require (is_text cert.signer && is_text cert.key)
        (encoding_error "signer and key must be base64 strings")
    signer ← key_field cert.signer
    key ← key_field cert.key
    or_invalid (assert_valid_x25519_public_key c key)
    role ← role_field cert.role
    scope ← name_field cert.scope
    not_before ← uint_field cert.not_before
    not_after ← uint_field cert.not_after
    serial ← uint_field cert.serial
    require (ltb not_before not_after) (encoding_error "validity window is empty or inverted")
    require (leb (not_after - not_before) max_key_agreement_lifetime)
        (encoding_error "validity exceeds MAX_KEY_AGREEMENT_LIFETIME")
    ok (record {
      signer = signer;
      key = key;
      role = role;
      scope = scope;
      not_before = not_before;
      not_after = not_after;
      serial = serial;
    })

  unfoldable pub canonical_key_agreement_bytes : CertificateInput → Result EncodingError (List ℕ)
  canonical_key_agreement_bytes cert = do
    parsed ← parse_certificate cert false
    encode_certificate parsed

  module _ (scheme : Signatures) where
    unfoldable pub sign_certificate :
        Certificate → (secret : List ℕ) → Result EncodingError Certificate
    sign_certificate cert secret = do
      parsed ← parse_certificate (certificate cert) false
      assert_secret_matches secret parsed.signer
      bytes ← encode_certificate parsed
      ok (record cert { signature = text (encode_base64 (scheme.sign bytes secret)) })

    unfoldable pub verify_key_agreement_certificate :
        CertificateInput → List GrantInput → KeyAgreementOptions → Result Stop CertifiedKey
    verify_key_agreement_certificate cert chain o = do
      require (is_valid_scope o.name) (refused scope_required "name must be a canonical name")
      role ← requested o.role
      parsed ← or_malformed (parse_certificate cert true)
      signature ← or_malformed (decode_field (signature_of cert) signature_length)
      verified ← verify_chain_core scheme chain o.options (role_purpose role)
      check_certificate scheme o role parsed signature verified
