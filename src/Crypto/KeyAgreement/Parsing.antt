-- ===== src/Crypto/KeyAgreement/Parsing.antt =====
-- What the parser of certificates lets through.
use tnp.Prelude.{
  ℕ, ◌+◌, ◌-◌, ◌^◌, ◌≤◌, ◌<◌, ◌≡◌, refl, Bool, true, not, ◌&&◌, ◌||◌, leb, ltb, List, arith, length,
  Result, ok, err, bind-eq-ok, require-eq-ok, ok_inj,
}
use mathlib.Core.Path.{subst}
use tnp.Crypto.Encoding.{
  Field, absent, undefined, other, text, number, array, is_absent, uint_field,
}
use tnp.Crypto.Scope.{is_valid_scope}
use tnp.Crypto.Primitives.{Primitives, assert_valid_x25519_public_key}
use tnp.Crypto.Grants.{is_text, key_field}
use tnp.Crypto.Grants.Parsing.{key_field-size, uint_field-safe}
use tnp.Crypto.KeyAgreement.{
  CertificateInput, certificate, not_object, ParsedCertificate, role_field, name_field, or_invalid,
  parse_certificate,
}

pub record IsParsedCertificate (c : Primitives) (p : ParsedCertificate) : Type 0 where
  pub signer_size : length p.signer ≡ 32
  pub key_size : length p.key ≡ 32
  pub key_valid : assert_valid_x25519_public_key c p.key ≡ ok tt
  pub scope_valid : is_valid_scope p.scope ≡ true
  pub ordered : p.not_before < p.not_after
  pub lifetime : p.not_after ≤ p.not_before + 604_800
  pub from_safe : p.not_before < 2 ^ 53
  pub until_safe : p.not_after < 2 ^ 53
  pub serial_safe : p.serial < 2 ^ 53

or_invalid-eq-ok {ℓ} : {E : Type ℓ} (m : Result E (Unit {0})) → or_invalid m ≡ ok tt → m ≡ ok tt
unfolding or_invalid
or_invalid-eq-ok (ok u) h = refl
or_invalid-eq-ok (err e) h = absurd (ground arith)

name_field-valid : (f : Field) (s : List ℕ) → name_field f ≡ ok s → is_valid_scope s ≡ true
unfolding name_field
name_field-valid (text t) s h = ground arith
name_field-valid absent s h = absurd (ground arith)
name_field-valid undefined s h = absurd (ground arith)
name_field-valid other s h = absurd (ground arith)
name_field-valid (number n) s h = absurd (ground arith)
name_field-valid (array a) s h = absurd (ground arith)

pub parse_certificate-IsParsed :
    (c : Primitives) (cert : CertificateInput) (allow : Bool) (p : ParsedCertificate)
    → parse_certificate c cert allow ≡ ok p
    → IsParsedCertificate c p
unfolding parse_certificate
parse_certificate-IsParsed c not_object allow p h = absurd (ground arith)
parse_certificate-IsParsed c (certificate cert) allow p h =
    let (expected, h1) =
      require-eq-ok (not cert.has_more && (is_absent cert.signature || allow)) _ h in
    let (strings, h2) = require-eq-ok (is_text cert.signer && is_text cert.key) _ h1 in
    let (signer, signer_ok, h3) = bind-eq-ok (key_field cert.signer) h2 in
    let (key, key_ok, h4) = bind-eq-ok (key_field cert.key) h3 in
    let (u, valid, h5) = bind-eq-ok (or_invalid (assert_valid_x25519_public_key c key)) h4 in
    let (role, role_ok, h6) = bind-eq-ok (role_field cert.role) h5 in
    let (scope, scope_ok, h7) = bind-eq-ok (name_field cert.scope) h6 in
    let (from, from_ok, h8) = bind-eq-ok (uint_field cert.not_before) h7 in
    let (until, until_ok, h9) = bind-eq-ok (uint_field cert.not_after) h8 in
    let (serial, serial_ok, h10) = bind-eq-ok (uint_field cert.serial) h9 in
    let (ordered, h11) = require-eq-ok (ltb from until) _ h10 in
    let (short, h12) = require-eq-ok (leb (until - from) 604_800) _ h11 in
    subst (IsParsedCertificate c) (ok_inj h12) (record {
      signer_size = key_field-size cert.signer signer signer_ok;
      key_size = key_field-size cert.key key key_ok;
      key_valid = or_invalid-eq-ok (assert_valid_x25519_public_key c key) valid;
      scope_valid = name_field-valid cert.scope scope scope_ok;
      ordered = ground arith;
      lifetime = ground arith;
      from_safe = uint_field-safe cert.not_before from from_ok;
      until_safe = uint_field-safe cert.not_after until until_ok;
      serial_safe = uint_field-safe cert.serial serial serial_ok;
    })
