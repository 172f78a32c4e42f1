-- ===== src/Crypto/KeyAgreement/Certified.antt =====
-- What a verified certificate establishes of its key, and of every grant behind its signer.
use tnp.Prelude.{
  ℕ, ◌≤◌, ◌<◌, ◌≡◌, refl, sym, ap, ◌∙◌, true, false, not, ◌&&◌, leb, ltb, Option, none, some, List,
  [], ◌∷◌, All, All-imp, arith, ok, bind-eq-ok, require-eq-ok, ok_inj, value,
}
use mathlib.Core.Path.{subst}
use tnp.Prelude.Texts.{same_text, same_text-eq}
use tnp.Crypto.Encoding.{KeyInput, decode_field, parse_public_key}
use tnp.Crypto.Scope.{is_valid_scope}
use tnp.Crypto.Primitives.{Primitives}
use tnp.Crypto.Grants.{Purpose, GrantInput, ParsedGrant}
use tnp.Crypto.Grants.Verifying.{
  Signatures, or_throw, or_malformed, VerifiedChain, parse_keys, has_key, is_within,
  verify_chain_core, is_rolled_back,
}
use tnp.Crypto.Grants.Narrowing.{IsBelow, is_within_trans}
use tnp.Crypto.Grants.Verified.{
  IsVerified, verify_chain_core-IsVerified, or_throw-eq-ok, or_malformed-eq-ok,
}
use tnp.Crypto.KeyAgreement.{
  Role, service_node, relay, role_purpose, CertificateInput, ParsedCertificate, signature_of,
  encode_certificate, make_verified_key, KeyAgreementOptions, CertifiedKey, same_role, requested,
  check_revoked, is_covered, parse_certificate, check_certificate, verify_key_agreement_certificate,
}
use tnp.Crypto.KeyAgreement.Parsing.{IsParsedCertificate, parse_certificate-IsParsed}

check_revoked-has_key :
    (ks : List KeyInput) (key : List ℕ) (keys : List (List ℕ))
    → check_revoked ks key ≡ ok tt
    → parse_keys ks ≡ ok keys
    → has_key keys key ≡ false
unfolding check_revoked parse_keys has_key
check_revoked-has_key [] key keys h e = subst (λ r. has_key r key ≡ false) (ok_inj e) refl
check_revoked-has_key (k ∷ ks) key keys h e =
    let (first, first_ok, e1) = bind-eq-ok (parse_public_key k) e in
    let (rest, rest_ok, e2) = bind-eq-ok (parse_keys ks) e1 in
    let (other_key, other_ok, h1) = bind-eq-ok (or_throw (parse_public_key k)) h in
    let (differs, h2) = require-eq-ok (not (same_text other_key key)) _ h1 in
    let same : other_key ≡ first =
      ok_inj (sym (or_throw-eq-ok (parse_public_key k) other_ok) ∙ first_ok) in
    let later = check_revoked-has_key ks key rest h2 rest_ok in
    let apart = rw same at differs in subst (λ r. has_key r key ≡ false) (ok_inj e2) (ground arith)

same_role-eq : (r s : Role) → same_role r s ≡ true → r ≡ s
same_role-eq service_node service_node h = refl
same_role-eq relay relay h = refl
same_role-eq service_node relay h = absurd (ground arith)
same_role-eq relay service_node h = absurd (ground arith)

-- What is checked of a certificate by itself and against the answer for its chain.
pub record IsHeld (scheme : Signatures) (o : KeyAgreementOptions) (p : ParsedCertificate)
    (signature : List ℕ) (chain : VerifiedChain) : Type 0 where
  pub signer : chain.subject ≡ p.signer
  pub named : p.scope ≡ o.name
  pub covered : is_covered chain.scope p.scope ≡ true
  pub from : chain.not_before ≤ p.not_before
  pub until : p.not_after ≤ chain.not_after
  pub begun : p.not_before ≤ value o.options.now
  pub lasts : value o.options.now < p.not_after
  pub stands :
      (keys : List (List ℕ))
      → parse_keys o.options.revoked_keys ≡ ok keys
      → has_key keys p.key ≡ false
  pub newest : is_rolled_back (o.options.known_serials p.signer p.key) p.serial ≡ false
  pub bytes : List ℕ
  pub encodes : encode_certificate p ≡ ok bytes
  pub signed : scheme.verify bytes signature p.signer ≡ true

is_covered-within :
    (outer : Option (List ℕ)) (s : List ℕ)
    → is_covered outer s ≡ true
    → is_within outer (some s) ≡ true
unfolding is_within
is_covered-within none s h = refl
is_covered-within (some outer) s h = h

check_certificate-eq-ok :
    (scheme : Signatures) (o : KeyAgreementOptions) (role : Role) (p : ParsedCertificate)
    (signature : List ℕ) (chain : VerifiedChain) (k : CertifiedKey)
    → check_certificate scheme o role p signature chain ≡ ok k
    → IsHeld scheme o p signature chain
      × (p.role ≡ role)
      × (k ≡ record {
        key = make_verified_key p;
        chain = chain;
        serial_key = (p.signer, p.key);
        serial = p.serial;
      })
unfolding check_certificate
check_certificate-eq-ok scheme o role p signature chain k h =
    let (signer, h1) = require-eq-ok (same_text chain.subject p.signer) _ h in
    let (roles, h2) = require-eq-ok (same_role p.role role) _ h1 in
    let (named, h3) = require-eq-ok (same_text p.scope o.name) _ h2 in
    let (covered, h4) = require-eq-ok (is_covered chain.scope p.scope) _ h3 in
    let (nested, h5) =
      require-eq-ok (leb chain.not_before p.not_before && leb p.not_after chain.not_after) _ h4 in
    let (begun, h6) = require-eq-ok (leb p.not_before (value o.options.now)) _ h5 in
    let (lasts, h7) = require-eq-ok (ltb (value o.options.now) p.not_after) _ h6 in
    let (u, stands, h8) = bind-eq-ok (check_revoked o.options.revoked_keys p.key) h7 in
    let (newest, h9) =
      require-eq-ok (not (is_rolled_back (o.options.known_serials p.signer p.key) p.serial)) _ h8 in
    let (bytes, encodes, h10) = bind-eq-ok (or_throw (encode_certificate p)) h9 in
    let (signed, h11) = require-eq-ok (scheme.verify bytes signature p.signer) _ h10 in
    (
      record {
        signer = same_text-eq chain.subject p.signer signer;
        named = same_text-eq p.scope o.name named;
        covered = covered;
        from = ground arith;
        until = ground arith;
        begun = ground arith;
        lasts = ground arith;
        stands = λ keys e. check_revoked-has_key o.options.revoked_keys p.key keys stands e;
        newest = ground arith;
        bytes = bytes;
        encodes = or_throw-eq-ok (encode_certificate p) encodes;
        signed = signed;
      },
      same_role-eq p.role role roles,
      sym (ok_inj h11),
    )

-- The key's name and lifetime lie within what a grant allows.
abbrev pub Allows : ParsedCertificate → ParsedGrant → Type 0
Allows p g =
    (is_within g.scope (some p.scope) ≡ true)
    × (g.not_before ≤ p.not_before)
    × (p.not_after ≤ g.not_after)

-- The role that was asked for, the certificate as it was read, and the chain behind its signer.
pub record IsCertified (c : Primitives) (scheme : Signatures) (cert : CertificateInput)
    (chain : List GrantInput) (o : KeyAgreementOptions) (k : CertifiedKey) : Type 0 where
  pub role : Role
  pub parsed : ParsedCertificate
  pub signature : List ℕ
  pub role_asked : o.role ≡ some role
  pub role_same : parsed.role ≡ role
  pub certificate_read : parse_certificate c cert true ≡ ok parsed
  pub signature_read : decode_field (signature_of cert) 64 ≡ ok signature
  pub well_formed : IsParsedCertificate c parsed
  pub verified : IsVerified scheme chain o.options (role_purpose role) k.chain
  pub held : IsHeld scheme o parsed signature k.chain
  pub allowed : Allows parsed verified.leaf × All (λ e. Allows parsed e.0) verified.rest
  pub answer : k.key ≡ make_verified_key parsed

Allows-below : (p : ParsedCertificate) (g h : ParsedGrant) → Allows p g → IsBelow g h → Allows p h
Allows-below p g h (within, from, until) below = (
  is_within_trans h.scope g.scope (some p.scope) below.scope within,
  omega (arith, from, below.from),
  omega (arith, until, below.until),
)

allowed_by_leaf :
    (scheme : Signatures) (o : KeyAgreementOptions) (p : ParsedCertificate) (signature : List ℕ)
    (chain : List GrantInput) (required : Purpose) (v : VerifiedChain)
    (verified : IsVerified scheme chain o.options required v)
    → IsHeld scheme o p signature v
    → Allows p verified.leaf
allowed_by_leaf scheme o p signature chain required v verified held =
    let answer = verified.answer in
    (
      is_covered-within verified.leaf.scope p.scope (rw answer at held.covered),
      rw answer at held.from,
      rw answer at held.until,
    )

requested-eq-ok : (r : Option Role) (role : Role) → requested r ≡ ok role → r ≡ some role
unfolding requested
requested-eq-ok none role h = absurd (ground arith)
requested-eq-ok (some r) role h = ap some (ok_inj h)

certified :
    (c : Primitives) (scheme : Signatures) (cert : CertificateInput) (chain : List GrantInput)
    (o : KeyAgreementOptions) (k : CertifiedKey) (role : Role) (parsed : ParsedCertificate)
    (signature : List ℕ) (v : VerifiedChain)
    → o.role ≡ some role
    → parse_certificate c cert true ≡ ok parsed
    → decode_field (signature_of cert) 64 ≡ ok signature
    → verify_chain_core scheme chain o.options (role_purpose role) ≡ ok v
    → check_certificate scheme o role parsed signature v ≡ ok k
    → IsCertified c scheme cert chain o k
certified c scheme cert chain o k role parsed signature v asked read sig_read chain_ok h =
    let (held, same, answer) = check_certificate-eq-ok scheme o role parsed signature v k h in
    let same_chain : v ≡ k.chain = ap (λ r. r.chain) (sym answer) in
    let verified =
      subst (IsVerified scheme chain o.options (role_purpose role)) same_chain
        (verify_chain_core-IsVerified scheme chain o.options (role_purpose role) v chain_ok) in
    let held_k = subst (IsHeld scheme o parsed signature) same_chain held in
    let by_leaf =
      allowed_by_leaf scheme o parsed signature chain (role_purpose role) k.chain verified held_k in
    record {
      role = role;
      parsed = parsed;
      signature = signature;
      role_asked = asked;
      role_same = same;
      certificate_read = read;
      signature_read = sig_read;
      well_formed = parse_certificate-IsParsed c cert true parsed read;
      verified = verified;
      held = held_k;
      allowed = (
        by_leaf,
        All-imp (λ e above. Allows-below parsed verified.leaf e.0 by_leaf above.1) verified.rest
            verified.above,
      );
      answer = ap (λ r. r.key) answer;
    }

-- A key that verifies is certified, in the role and for the name that were asked for, by a key to
-- which a trusted root's chain gives the purpose; name and lifetime lie within every grant's.
pub verify_certificate-IsCertified :
    (c : Primitives) (scheme : Signatures) (cert : CertificateInput) (chain : List GrantInput)
    (o : KeyAgreementOptions) (k : CertifiedKey)
    → verify_key_agreement_certificate c scheme cert chain o ≡ ok k
    → IsCertified c scheme cert chain o k
unfolding verify_key_agreement_certificate
verify_certificate-IsCertified c scheme cert chain o k h =
    let (named, h1) = require-eq-ok (is_valid_scope o.name) _ h in
    let (role, role_ok, h2) = bind-eq-ok (requested o.role) h1 in
    let (parsed, parsed_ok, h3) = bind-eq-ok (or_malformed (parse_certificate c cert true)) h2 in
    let (signature, signature_ok, h4) =
      bind-eq-ok (or_malformed (decode_field (signature_of cert) 64)) h3 in
    let (v, verified_ok, h5) =
      bind-eq-ok (verify_chain_core scheme chain o.options (role_purpose role)) h4 in
    certified c scheme cert chain o k role parsed signature v (requested-eq-ok o.role role role_ok)
      (or_malformed-eq-ok (parse_certificate c cert true) parsed_ok)
      (or_malformed-eq-ok (decode_field (signature_of cert) 64) signature_ok) verified_ok h5
