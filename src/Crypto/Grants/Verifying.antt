-- ===== src/Crypto/Grants/Verifying.antt =====
-- packages/crypto/src/grants.ts: signing a grant and verifying a chain of them, leaf first. The
-- signature scheme is a third-party package, and a parameter.
use Prim.Native.String.{String}
use tnp.Prelude.{
  ℕ, ◌==◌, Bool, true, false, not, ◌&&◌, ◌||◌, ltb, leb, Option, none, some, List, [], ◌∷◌, drop,
  length, Result, ok, err, ◌>>=◌, ◌>>◌, require, Number, value,
}
use tnp.Prelude.Texts.{same_text}
use tnp.Crypto.Encoding.{
  EncodingError, encoding_error, KeyInput, parse_public_key, signature_length, assert_uint, Field,
  text, decode_field, encode_base64,
}
use tnp.Crypto.Scope.{is_valid_scope, scope_covers}
use tnp.Crypto.Grants.{
  Purpose, delegate, is_scoped, includes, Grant, GrantInput, object, not_object, ParsedGrant,
  parse_unsigned, encode_parsed,
}

-- `nacl.sign.detached` and `nacl.sign.detached.verify`.
pub record Signatures : Type 0 where
  pub sign : (message secret : List ℕ) → List ℕ
  pub verify : (message signature key : List ℕ) → Bool

pub data VerifyFailure : Type 0 where
  bad_signature not_yet_valid expired revoked purpose_not_granted scope_mismatch : VerifyFailure
  scope_required window_not_nested chain_broken chain_too_long untrusted_root : VerifyFailure
  rolled_back malformed : VerifyFailure

-- How a verification ends early: the answer `{ ok: false, … }`, or an exception.
pub data Stop : Type 0 where
  refused : VerifyFailure → String → Stop
  thrown : EncodingError → Stop

abbrev pub or_throw {ℓ} : {A : Type ℓ} → Result EncodingError A → Result Stop A
or_throw (ok a) = ok a
or_throw (err e) = err (thrown e)

-- `catch (err) { return fail('malformed', …) }`
abbrev pub or_malformed {ℓ} : {A : Type ℓ} → Result EncodingError A → Result Stop A
or_malformed (ok a) = ok a
or_malformed (err e) = err (refused malformed e.message)

pub record VerifiedChain : Type 0 where
  pub purposes : List Purpose
  pub subject : List ℕ
  pub scope : Option (List ℕ)
  pub not_before : ℕ
  pub not_after : ℕ
  -- issuer, subject and serial of every link
  pub serials : List (List ℕ × List ℕ × ℕ)

-- `VerifyOptionsBase`; `known_serials` answers for an issuer and a subject.
pub record VerifyOptions : Type 0 where
  pub trusted_roots : List KeyInput
  pub now : Number
  pub revoked_keys : List KeyInput
  pub known_serials : List ℕ → List ℕ → Option ℕ

abbrev pub max_chain_depth : ℕ
max_chain_depth = 4

unfoldable pub parse_keys : List KeyInput → Result EncodingError (List (List ℕ))
parse_keys [] = ok []
parse_keys (k ∷ ks) = do key ← parse_public_key k; keys ← parse_keys ks; ok (key ∷ keys)

-- `set.has(key)`
unfoldable pub has_key : List (List ℕ) → List ℕ → Bool
has_key [] key = false
has_key (k ∷ ks) key = same_text k key || has_key ks key

-- `new Set(keys).size !== keys.length`
unfoldable pub has_repeat : List (List ℕ) → Bool
has_repeat [] = false
has_repeat (k ∷ ks) = has_key ks k || has_repeat ks

unfoldable pub signature_field : GrantInput → Field
signature_field (object g) = g.signature
signature_field not_object = Field.absent

-- The grants with their signatures.
unfoldable pub parse_chain : List GrantInput → Result EncodingError (List (ParsedGrant × List ℕ))
parse_chain [] = ok []
parse_chain (g ∷ chain) = do
  parsed ← parse_unsigned g true
  signature ← decode_field (signature_field g) signature_length
  rest ← parse_chain chain
  ok ((parsed, signature) ∷ rest)

unfoldable pub is_rolled_back : Option ℕ → ℕ → Bool
is_rolled_back none serial = false
is_rolled_back (some seen) serial = ltb serial seen

-- `!child.purposes.find((p) => !grant.purposes.includes(p))`
unfoldable pub holds_all : List Purpose → List Purpose → Bool
holds_all held [] = true
holds_all held (p ∷ ps) = includes held p && holds_all held ps

unfoldable pub is_within : (outer inner : Option (List ℕ)) → Bool
is_within none inner = true
is_within (some outer) none = false
is_within (some outer) (some inner) = scope_covers outer inner

-- What the second half of the loop asks of a grant and the one below it.
unfoldable pub check_link : ParsedGrant → Option ParsedGrant → Result Stop (Unit {0})
check_link g none = ok tt
check_link g (some child) = do
  require (same_text g.subject child.issuer)
      (refused chain_broken "grant does not authorize the issuer of the grant below it")
  require (includes g.purposes delegate)
      (refused purpose_not_granted "grant does not carry the delegate purpose")
  require (holds_all g.purposes child.purposes)
      (refused purpose_not_granted "grant below claims what its issuer lacks")
  require (is_within g.scope child.scope)
      (refused scope_mismatch "grant below is not within its issuer's scope")
  require (leb g.not_before child.not_before && leb child.not_after g.not_after)
      (refused window_not_nested "grant below outlives or predates its issuer's grant")

-- The last grant of a chain that begins with `g`.
unfoldable pub root_of : ParsedGrant → List (ParsedGrant × List ℕ) → ParsedGrant
root_of g [] = g
root_of g ((h, s) ∷ rest) = root_of h rest

unfoldable pub issuers : List (ParsedGrant × List ℕ) → List (List ℕ)
issuers [] = []
issuers ((g, s) ∷ rest) = g.issuer ∷ issuers rest

unfoldable pub serials_of : List (ParsedGrant × List ℕ) → List (List ℕ × List ℕ × ℕ)
serials_of [] = []
serials_of ((g, s) ∷ rest) = (g.issuer, g.subject, g.serial) ∷ serials_of rest

-- `isValidScope(options.requireScope)`, where a scope is given or the purpose wants one.
unfoldable pub is_scope_given : Option (List ℕ) → Purpose → Bool
is_scope_given none required = not (is_scoped required)
is_scope_given (some s) required = is_valid_scope s

unfoldable pub is_scope_met : Option (List ℕ) → Option (List ℕ) → Bool
is_scope_met none scope = true
is_scope_met (some s) none = false
is_scope_met (some s) (some t) = same_text s t

-- `secretKey.subarray(32)` is the public half.
unfoldable pub assert_secret_matches :
    (secret public_key : List ℕ) → Result EncodingError (Unit {0})
assert_secret_matches secret public_key = do
  require (length secret == 64) (encoding_error "Ed25519 secret key must be 64 bytes")
  require (same_text (drop 32 secret) public_key)
      (encoding_error "secret key does not belong to the named public key")

module _ (scheme : Signatures) where
  unfoldable pub sign_grant : Grant → (secret : List ℕ) → Result EncodingError Grant
  sign_grant grant secret = do
    parsed ← parse_unsigned (object grant) false
    assert_secret_matches secret parsed.issuer
    bytes ← encode_parsed parsed
    ok (record grant { signature = text (encode_base64 (scheme.sign bytes secret)) })

  unfoldable pub check_grant :
      VerifyOptions
      → List (List ℕ)
      → ParsedGrant
      → List ℕ
      → Option ParsedGrant
      → Result Stop (Unit {0})
  check_grant o revoked_set g signature child = do
    require (not (has_key revoked_set g.subject)) (refused revoked "subject is revoked")
    require (not (has_key revoked_set g.issuer)) (refused revoked "issuer is revoked")
    require (leb g.not_before (value o.now)) (refused not_yet_valid "grant is not valid yet")
    require (ltb (value o.now) g.not_after) (refused expired "grant expired")
    require (not (is_rolled_back (o.known_serials g.issuer g.subject) g.serial))
        (refused rolled_back "serial is below the highest seen")
    bytes ← or_throw (encode_parsed g)
    require (scheme.verify bytes signature g.issuer)
        (refused bad_signature "signature does not verify")
    check_link g child

  -- The loop, from the grant after `child` on.
  unfoldable pub check_grants :
      VerifyOptions
      → List (List ℕ)
      → Option ParsedGrant
      → List (ParsedGrant × List ℕ)
      → Result Stop (Unit {0})
  check_grants o revoked_set child [] = ok tt
  check_grants o revoked_set child ((g, signature) ∷ rest) = do
    check_grant o revoked_set g signature child
    check_grants o revoked_set (some g) rest

  unfoldable pub check_chain :
      VerifyOptions
      → (roots revoked_set : List (List ℕ)) → Purpose
      → List (ParsedGrant × List ℕ)
      → Result Stop VerifiedChain
  check_chain o roots revoked_set required [] = err (refused malformed "empty chain")
  check_chain o roots revoked_set required ((leaf, signature) ∷ rest) = do
    check_grants o revoked_set none ((leaf, signature) ∷ rest)
    require (not (has_repeat (leaf.subject ∷ issuers ((leaf, signature) ∷ rest))))
        (refused malformed "a key repeats in the chain")
    require (has_key roots (root_of leaf rest).issuer)
        (refused untrusted_root "chain does not terminate at a trusted root")
    require (includes leaf.purposes required)
        (refused purpose_not_granted "leaf does not carry the purpose")
    ok (record {
      purposes = leaf.purposes;
      subject = leaf.subject;
      scope = leaf.scope;
      not_before = leaf.not_before;
      not_after = leaf.not_after;
      serials = serials_of ((leaf, signature) ∷ rest);
    })

  unfoldable pub verify_chain_core :
      List GrantInput → VerifyOptions → Purpose → Result Stop VerifiedChain
  verify_chain_core chain o required = do
    or_throw (assert_uint o.now)
    roots ← or_throw (parse_keys o.trusted_roots)
    revoked_set ← or_throw (parse_keys o.revoked_keys)
    require (not (length chain == 0)) (refused malformed "empty chain")
    require (leb (length chain) max_chain_depth)
        (refused chain_too_long "chain exceeds MAX_CHAIN_DEPTH")
    parsed ← or_malformed (parse_chain chain)
    check_chain o roots revoked_set required parsed

  unfoldable pub verify_chain :
      List GrantInput
      → VerifyOptions
      → Purpose
      → (require_scope : Option (List ℕ)) → Result Stop VerifiedChain
  verify_chain chain o required require_scope = do
    require (is_scope_given require_scope required)
        (refused scope_required "verifying requires a canonical requireScope")
    verified ← verify_chain_core chain o required
    require (is_scope_met require_scope verified.scope)
        (refused scope_mismatch "leaf is not scoped to the requested name")
    ok verified
