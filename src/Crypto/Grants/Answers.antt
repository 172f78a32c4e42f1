-- ===== src/Crypto/Grants/Answers.antt =====
-- verifyChain: the name it was asked for, and that remote input never makes it throw.
use Prim.Native.String.{String}
use tnp.Prelude.{
  ℕ, ◌≡◌, ◌≢◌, refl, sym, ap, ◌∙◌, ◌==◌, Bool, true, false, not, leb, Option, none, some, List, [],
  ◌∷◌, All, arith, length, Result, ok, err, ◌>>=◌, ◌>>◌, require, bind-eq-ok, require-eq-ok, ok_inj,
  err_inj,
}
use tnp.Prelude.Texts.{same_text-eq}
use tnp.Crypto.Encoding.{EncodingError, assert_uint}
use tnp.Crypto.Scope.{is_valid_scope}
use tnp.Crypto.Grants.{Purpose, is_scoped, GrantInput, ParsedGrant}
use tnp.Crypto.Grants.Parsing.{IsParsed, parse_chain-IsParsed}
use tnp.Crypto.Grants.Bytes.{encode_parsed-written}
use tnp.Crypto.Grants.Verified.{IsVerified, verify_chain_core-IsVerified, or_malformed-eq-ok}
use tnp.Crypto.Grants.Verifying.{
  VerifyFailure, Signatures, Stop, refused, thrown, or_malformed, VerifiedChain, VerifyOptions,
  parse_keys, parse_chain, check_link, check_grant, check_grants, check_chain, verify_chain_core,
  is_scope_given, is_scope_met, verify_chain,
}

-- The scope of the answer is the one that was required.
scope_met-eq :
    (want : Option (List ℕ)) (got : Option (List ℕ)) (s : List ℕ)
    → is_scope_met want got ≡ true
    → want ≡ some s
    → got ≡ some s
unfolding is_scope_met
scope_met-eq none got s h e = absurd (ground arith)
scope_met-eq (some t) none s h e = absurd (ground arith)
scope_met-eq (some t) (some u) s h e = ap some (sym (same_text-eq t u h)) ∙ e

-- A purpose that speaks for a name is verified only with the name.
scope_given-some :
    (want : Option (List ℕ)) (required : Purpose)
    → is_scope_given want required ≡ true
    → is_scoped required ≡ true
    → (s : List ℕ) × (want ≡ some s) × (is_valid_scope s ≡ true)
unfolding is_scope_given
scope_given-some none required h e = absurd (ground arith)
scope_given-some (some s) required h e = (s, refl, h)

-- An accepted chain is verified: from the leaf to a trusted root every grant is accepted, is for the
-- key that issued the grant below it, may delegate and covers the leaf; and a leaf that speaks for a
-- name speaks for the name that was required, exactly.
pub verify_chain-IsVerified :
    (scheme : Signatures) (chain : List GrantInput) (o : VerifyOptions) (required : Purpose)
    (require_scope : Option (List ℕ)) (v : VerifiedChain)
    → verify_chain scheme chain o required require_scope ≡ ok v
    → IsVerified scheme chain o required v
      × ((s : List ℕ) → require_scope ≡ some s → v.scope ≡ some s)
      × (is_scoped required ≡ true → (s : List ℕ) × (v.scope ≡ some s) × (is_valid_scope s ≡ true))
unfolding verify_chain
verify_chain-IsVerified scheme chain o required require_scope v h =
    let (given, h1) = require-eq-ok (is_scope_given require_scope required) _ h in
    let (v', core, h2) = bind-eq-ok (verify_chain_core scheme chain o required) h1 in
    let (met, h3) = require-eq-ok (is_scope_met require_scope v'.scope) _ h2 in
    let same : v' ≡ v = ok_inj h3 in
    let met_v : is_scope_met require_scope v.scope ≡ true = rw same at met in
    (
      verify_chain_core-IsVerified scheme chain o required v (core ∙ h3),
      λ s e. scope_met-eq require_scope v.scope s met_v e,
      λ e.
          let (s, want, valid) = scope_given-some require_scope required given e in
          (s, scope_met-eq require_scope v.scope s met_v want, valid),
    )

-- A computation that answers or refuses, and throws nothing.
abbrev Quiet {ℓ} : {A : Type ℓ} → Result Stop A → Type ℓ
Quiet m = (e : EncodingError) → m ≢ err (thrown e)

bind-Quiet {ℓ κ} :
    {A : Type ℓ} {B : Type κ} (m : Result Stop A) (f : A → Result Stop B)
    → Quiet m
    → ((a : A) → m ≡ ok a → Quiet (f a))
    → Quiet (m >>= f)
bind-Quiet (ok a) f h k e d = k a refl e d
bind-Quiet (err x) f h k e d = h e (ap err (err_inj d))

require-Quiet {ℓ} :
    {B : Type ℓ} (c : Bool) (x : VerifyFailure) (s : String) (k : Result Stop B)
    → Quiet k
    → Quiet (require c (refused x s) >> k)
require-Quiet true x s k h e d = h e d
require-Quiet false x s k h e d = absurd (ground arith)

ok-Quiet {ℓ} : {A : Type ℓ} (a : A) → Quiet (ok a)
ok-Quiet a e d = absurd (ground arith)

refused-Quiet {ℓ} :
    {A : Type ℓ} (x : VerifyFailure) (s : String) → Quiet {A = A} (err (refused x s))
refused-Quiet x s e d = absurd (ground arith)

or_malformed-Quiet {ℓ} : {A : Type ℓ} (m : Result EncodingError A) → Quiet (or_malformed m)
or_malformed-Quiet (ok a) = ok-Quiet a
or_malformed-Quiet (err x) = refused-Quiet _ _

last-Quiet : (c : Bool) (x : VerifyFailure) (s : String) → Quiet (require c (refused x s))
last-Quiet true x s = ok-Quiet tt
last-Quiet false x s = refused-Quiet x s

check_link-Quiet : (g : ParsedGrant) (child : Option ParsedGrant) → Quiet (check_link g child)
unfolding check_link
check_link-Quiet g none = ok-Quiet _
check_link-Quiet g (some child) = search (require-Quiet, last-Quiet)

module _ (scheme : Signatures) (o : VerifyOptions) (revoked : List (List ℕ)) where
  check_grant-Quiet :
      (g : ParsedGrant) (signature : List ℕ) (child : Option ParsedGrant)
      → IsParsed g
      → Quiet (check_grant scheme o revoked g signature child)
  unfolding check_grant
  check_grant-Quiet g signature child h =
      rw (check_grant, encode_parsed-written g h) (search (require-Quiet, check_link-Quiet) depth 9)

  check_grants-Quiet :
      (child : Option ParsedGrant) (parsed : List (ParsedGrant × List ℕ))
      → All (λ e. IsParsed e.0) parsed
      → Quiet (check_grants scheme o revoked child parsed)
  unfolding check_grants
  check_grants-Quiet child [] h = ok-Quiet _
  check_grants-Quiet child ((g, signature) ∷ rest) (p, h) =
      bind-Quiet (check_grant scheme o revoked g signature child) _
        (check_grant-Quiet g signature child p) (λ u e. check_grants-Quiet (some g) rest h)

  check_chain-Quiet :
      (roots : List (List ℕ)) (required : Purpose) (parsed : List (ParsedGrant × List ℕ))
      → All (λ e. IsParsed e.0) parsed
      → Quiet (check_chain scheme o roots revoked required parsed)
  unfolding check_chain
  check_chain-Quiet roots required [] h = refused-Quiet _ _
  check_chain-Quiet roots required ((leaf, signature) ∷ rest) h =
      bind-Quiet (check_grants scheme o revoked none ((leaf, signature) ∷ rest)) _
        (check_grants-Quiet none ((leaf, signature) ∷ rest) h)
        (λ u e. search (require-Quiet, ok-Quiet))

-- With options that are in order, a chain is accepted or refused, whatever was sent.
pub verify_chain-no_throw :
    (scheme : Signatures) (chain : List GrantInput) (o : VerifyOptions) (required : Purpose)
    (require_scope : Option (List ℕ)) (roots revoked : List (List ℕ))
    → assert_uint o.now ≡ ok tt
    → parse_keys o.trusted_roots ≡ ok roots
    → parse_keys o.revoked_keys ≡ ok revoked
    → (e : EncodingError) → verify_chain scheme chain o required require_scope ≢ err (thrown e)
unfolding verify_chain verify_chain_core
verify_chain-no_throw scheme chain o required require_scope roots revoked clock er ev =
    require-Quiet (is_scope_given require_scope required) _ _ _ (
      bind-Quiet (verify_chain_core scheme chain o required) _
        (rw (verify_chain_core, clock, er, ev)
          (require-Quiet (not (length chain == 0)) _ _ _ (
            require-Quiet (leb (length chain) 4) _ _ _ (
              bind-Quiet (or_malformed (parse_chain chain)) _
                (or_malformed-Quiet (parse_chain chain))
                (λ parsed f.
                  check_chain-Quiet scheme o revoked roots required parsed
                    (parse_chain-IsParsed chain parsed
                      (or_malformed-eq-ok (parse_chain chain) f)).1)))))
        (λ v f. search (require-Quiet, ok-Quiet)))
