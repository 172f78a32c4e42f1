-- ===== src/Crypto/Grants/Verified.antt =====
-- A chain that verifies: what holds of every grant in it, from the leaf up to a trusted root.
use tnp.Prelude.{
  ℕ, ◌≤◌, ◌≡◌, sym, ap, ◌==◌, true, false, not, leb, Option, none, some, List, [], ◌∷◌, All, arith,
  Result, ok, err, bind-eq-ok, require-eq-ok, ok_inj, length,
}
use tnp.Crypto.Encoding.{EncodingError, assert_uint}
use tnp.Crypto.Grants.Parsing.{IsNamed, parse_chain-IsParsed}
use tnp.Crypto.Grants.{Purpose, includes, GrantInput, ParsedGrant}
use tnp.Crypto.Grants.Verifying.{
  Signatures, or_throw, or_malformed, VerifiedChain, VerifyOptions, parse_keys, has_key, has_repeat,
  parse_chain, root_of, issuers, serials_of, check_grant, check_grants, check_chain,
  verify_chain_core,
}
use tnp.Crypto.Grants.Narrowing.{
  IsScoped, IsBelow-refl, IsAccepted, check_grant-eq-ok, IsAbove, AreLinked, check_grants-IsAbove,
}

module _ (scheme : Signatures) (o : VerifyOptions) (revoked : List (List ℕ)) where
  check_chain-eq-ok :
      (roots : List (List ℕ)) (required : Purpose) (leaf : ParsedGrant) (signature : List ℕ)
      (rest : List (ParsedGrant × List ℕ)) (v : VerifiedChain)
      → check_chain scheme o roots revoked required ((leaf, signature) ∷ rest) ≡ ok v
      → IsScoped leaf.scope
      → IsAccepted scheme o revoked leaf signature
        × (All (IsAbove scheme o revoked leaf) rest × AreLinked leaf rest)
        × (has_repeat (leaf.subject ∷ issuers ((leaf, signature) ∷ rest)) ≡ false)
        × (has_key roots (root_of leaf rest).issuer ≡ true)
        × (includes leaf.purposes required ≡ true)
        × (v ≡ record {
          purposes = leaf.purposes;
          subject = leaf.subject;
          scope = leaf.scope;
          not_before = leaf.not_before;
          not_after = leaf.not_after;
          serials = serials_of ((leaf, signature) ∷ rest);
        })
  unfolding check_chain check_grants
  check_chain-eq-ok roots required leaf signature rest v h scoped =
      let (u, grants, h1) =
        bind-eq-ok (check_grants scheme o revoked none ((leaf, signature) ∷ rest)) h in
      let (w, own, above) = bind-eq-ok (check_grant scheme o revoked leaf signature none) grants in
      let (accepted, link) = check_grant-eq-ok scheme o revoked leaf signature none own in
      let (distinct, h2) =
        require-eq-ok (not (has_repeat (leaf.subject ∷ issuers ((leaf, signature) ∷ rest)))) _ h1 in
      let (root, h3) = require-eq-ok (has_key roots (root_of leaf rest).issuer) _ h2 in
      let (holds, h4) = require-eq-ok (includes leaf.purposes required) _ h3 in
      (
        accepted,
        check_grants-IsAbove scheme o revoked leaf leaf rest (IsBelow-refl leaf scoped) above,
        ground arith,
        root,
        holds,
        sym (ok_inj h4),
      )

-- A verified chain: what was sent parses, and from the leaf to a trusted root every grant is
-- accepted by itself, allows the leaf all that it claims, may delegate, and is for the key that issued
-- the grant below it.
pub record IsVerified (scheme : Signatures) (chain : List GrantInput) (o : VerifyOptions)
    (required : Purpose) (v : VerifiedChain) : Type 0 where
  pub roots : List (List ℕ)
  pub revoked : List (List ℕ)
  pub leaf : ParsedGrant
  pub signature : List ℕ
  pub rest : List (ParsedGrant × List ℕ)
  pub roots_read : parse_keys o.trusted_roots ≡ ok roots
  pub revoked_read : parse_keys o.revoked_keys ≡ ok revoked
  pub chain_read : parse_chain chain ≡ ok ((leaf, signature) ∷ rest)
  pub short : length chain ≤ 4
  pub accepted : IsAccepted scheme o revoked leaf signature
  pub above : All (IsAbove scheme o revoked leaf) rest
  pub linked : AreLinked leaf rest
  pub distinct : has_repeat (leaf.subject ∷ issuers ((leaf, signature) ∷ rest)) ≡ false
  pub trusted : has_key roots (root_of leaf rest).issuer ≡ true
  pub holds : includes leaf.purposes required ≡ true
  pub answer : v ≡ record {
    purposes = leaf.purposes;
    subject = leaf.subject;
    scope = leaf.scope;
    not_before = leaf.not_before;
    not_after = leaf.not_after;
    serials = serials_of ((leaf, signature) ∷ rest);
  }

IsScoped-of_IsNamed : (ps : List Purpose) (s : Option (List ℕ)) → IsNamed ps s → IsScoped s
IsScoped-of_IsNamed ps none h = tt
IsScoped-of_IsNamed ps (some s) h = h

pub or_throw-eq-ok {ℓ} :
    {A : Type ℓ} (m : Result EncodingError A) {a : A} → or_throw m ≡ ok a → m ≡ ok a
or_throw-eq-ok (ok b) h = ap ok (ok_inj h)
or_throw-eq-ok (err e) h = absurd (ground arith)

pub or_malformed-eq-ok {ℓ} :
    {A : Type ℓ} (m : Result EncodingError A) {a : A} → or_malformed m ≡ ok a → m ≡ ok a
or_malformed-eq-ok (ok b) h = ap ok (ok_inj h)
or_malformed-eq-ok (err e) h = absurd (ground arith)

check_chain-IsVerified :
    (scheme : Signatures) (chain : List GrantInput) (o : VerifyOptions) (required : Purpose)
    (v : VerifiedChain) (roots revoked : List (List ℕ)) (parsed : List (ParsedGrant × List ℕ))
    → parse_keys o.trusted_roots ≡ ok roots
    → parse_keys o.revoked_keys ≡ ok revoked
    → leb (length chain) 4 ≡ true
    → parse_chain chain ≡ ok parsed
    → check_chain scheme o roots revoked required parsed ≡ ok v
    → IsVerified scheme chain o required v
check_chain-IsVerified scheme chain o required v roots revoked [] er ev short ec h =
    unfold check_chain in absurd (ground arith)
check_chain-IsVerified scheme chain o required v roots revoked ((leaf, signature) ∷ rest) er ev
      short ec h =
    let (size, (whole_leaf, whole_rest)) =
      parse_chain-IsParsed chain ((leaf, signature) ∷ rest) ec in
    let scoped = IsScoped-of_IsNamed leaf.purposes leaf.scope whole_leaf.named in
    let (accepted, above, distinct, trusted, holds, answer) =
      check_chain-eq-ok scheme o revoked roots required leaf signature rest v h scoped in
    record {
      roots = roots;
      revoked = revoked;
      leaf = leaf;
      signature = signature;
      rest = rest;
      roots_read = er;
      revoked_read = ev;
      chain_read = ec;
      short = ground arith;
      accepted = accepted;
      above = above.0;
      linked = above.1;
      distinct = distinct;
      trusted = trusted;
      holds = holds;
      answer = answer;
    }

pub verify_chain_core-IsVerified :
    (scheme : Signatures) (chain : List GrantInput) (o : VerifyOptions) (required : Purpose)
    (v : VerifiedChain)
    → verify_chain_core scheme chain o required ≡ ok v
    → IsVerified scheme chain o required v
unfolding verify_chain_core
verify_chain_core-IsVerified scheme chain o required v h =
    let (u, clock, h1) = bind-eq-ok (or_throw (assert_uint o.now)) h in
    let (roots, roots_ok, h2) = bind-eq-ok (or_throw (parse_keys o.trusted_roots)) h1 in
    let (revoked, revoked_ok, h3) = bind-eq-ok (or_throw (parse_keys o.revoked_keys)) h2 in
    let (some_grant, h4) = require-eq-ok (not (length chain == 0)) _ h3 in
    let (short, h5) = require-eq-ok (leb (length chain) 4) _ h4 in
    let (parsed, parsed_ok, h6) = bind-eq-ok (or_malformed (parse_chain chain)) h5 in
    check_chain-IsVerified scheme chain o required v roots revoked parsed
      (or_throw-eq-ok (parse_keys o.trusted_roots) roots_ok)
      (or_throw-eq-ok (parse_keys o.revoked_keys) revoked_ok) short
      (or_malformed-eq-ok (parse_chain chain) parsed_ok) h6
