-- ===== src/Crypto/Grants/Narrowing.antt =====
-- What a grant of a chain must meet, by itself and as the issuer of the one below it.
use tnp.Prelude.{
  ℕ, ◌≤◌, ◌<◌, ◌≡◌, refl, ◌==◌, ==→eq, true, false, Option, none, some, List, [], ◌∷◌, All, arith,
  ok, Result-cases, Bool-cases, inl, inr, value,
}
use tnp.Prelude.Texts.{same_text-eq}
use tnp.Crypto.Scope.{is_valid_scope}
use tnp.Crypto.Scope.Labels.{scope_covers_refl, scope_covers_trans}
use tnp.Crypto.Grants.{Purpose, delegate, index_of, includes, ParsedGrant, encode_parsed}
use tnp.Crypto.Grants.Verifying.{
  Signatures, VerifyOptions, has_key, is_rolled_back, holds_all, is_within, check_link, check_grant,
  check_grants,
}

-- What the child's key may do, the issuer's may.
pub record IsBelow (child g : ParsedGrant) : Type 0 where
  pub purposes : (p : Purpose) → includes child.purposes p ≡ true → includes g.purposes p ≡ true
  pub scope : is_within g.scope child.scope ≡ true
  pub from : g.not_before ≤ child.not_before
  pub until : child.not_after ≤ g.not_after

abbrev pub IsScoped : Option (List ℕ) → Type 0
IsScoped none = Unit
IsScoped (some s) = is_valid_scope s ≡ true

is_within_refl : (s : Option (List ℕ)) → IsScoped s → is_within s s ≡ true
unfolding is_within
is_within_refl none h = refl
is_within_refl (some s) h = scope_covers_refl s h

pub is_within_trans :
    (a b c : Option (List ℕ)) → is_within a b ≡ true → is_within b c ≡ true → is_within a c ≡ true
unfolding is_within
is_within_trans none b c h k = refl
is_within_trans (some a) (some b) (some c) h k = scope_covers_trans a b c h k
is_within_trans (some a) none c h k = absurd (ground arith)
is_within_trans (some a) (some b) none h k = absurd (ground arith)

pub IsBelow-refl : (g : ParsedGrant) → IsScoped g.scope → IsBelow g g
IsBelow-refl g h = record {
  purposes = λ p e. e;
  scope = is_within_refl g.scope h;
  from = omega arith;
  until = omega arith;
}

IsBelow-trans : (a b c : ParsedGrant) → IsBelow a b → IsBelow b c → IsBelow a c
IsBelow-trans a b c h k = record {
  purposes = λ p e. k.purposes p (h.purposes p e);
  scope = is_within_trans c.scope b.scope a.scope k.scope h.scope;
  from = omega (arith, h.from, k.from);
  until = omega (arith, h.until, k.until);
}

includes-index :
    (ps : List Purpose) (p q : Purpose) → index_of p ≡ index_of q → includes ps p ≡ includes ps q
unfolding includes
includes-index [] p q e = refl
includes-index (r ∷ ps) p q e = rw (e, includes-index ps p q e) refl

holds_all_lem :
    (held ps : List Purpose) (p : Purpose)
    → holds_all held ps ≡ true
    → includes ps p ≡ true
    → includes held p ≡ true
unfolding holds_all includes
holds_all_lem held [] p h e = absurd (ground arith)
holds_all_lem held (q ∷ ps) p h e = elim (Bool-cases (index_of q == index_of p)) [
  | inl d ↦ ground (arith, includes-index held q p (==→eq _ _ d))
  | inr d ↦ holds_all_lem held ps p (ground arith) (rw d at e)
]

-- The issuer of the child is the key that the grant above is for, and it may delegate.
pub record IsLinked (child g : ParsedGrant) : Type 0 where
  pub authorizes : g.subject ≡ child.issuer
  pub may : includes g.purposes delegate ≡ true

-- Every grant is for the issuer of the one below it.
abbrev pub AreLinked : ParsedGrant → List (ParsedGrant × List ℕ) → Type 0
AreLinked child [] = Unit
AreLinked child ((g, signature) ∷ rest) = IsLinked child g × AreLinked g rest

check_link-eq-ok :
    (g child : ParsedGrant) → check_link g (some child) ≡ ok tt → IsBelow child g × IsLinked child g
unfolding check_link
check_link-eq-ok g child h = (
  record {
    purposes = λ p e. holds_all_lem g.purposes child.purposes p (ground arith) e;
    scope = ground arith;
    from = ground arith;
    until = ground arith;
  },
  record { authorizes = same_text-eq g.subject child.issuer (ground arith); may = ground arith },
)

-- What is asked of a grant by itself.
pub record IsAccepted (scheme : Signatures) (o : VerifyOptions) (revoked : List (List ℕ))
    (g : ParsedGrant) (signature : List ℕ) : Type 0 where
  pub subject_stands : has_key revoked g.subject ≡ false
  pub issuer_stands : has_key revoked g.issuer ≡ false
  pub begun : g.not_before ≤ value o.now
  pub lasts : value o.now < g.not_after
  pub newest : is_rolled_back (o.known_serials g.issuer g.subject) g.serial ≡ false
  pub bytes : List ℕ
  pub encodes : encode_parsed g ≡ ok bytes
  pub signed : scheme.verify bytes signature g.issuer ≡ true

module _ (scheme : Signatures) (o : VerifyOptions) (revoked : List (List ℕ)) where
  pub check_grant-eq-ok :
      (g : ParsedGrant) (signature : List ℕ) (child : Option ParsedGrant)
      → check_grant scheme o revoked g signature child ≡ ok tt
      → IsAccepted scheme o revoked g signature × (check_link g child ≡ ok tt)
  unfolding check_grant
  check_grant-eq-ok g signature child h = elim (Result-cases (encode_parsed g)) [
    | inl (bytes, e) ↦ (
      record {
        subject_stands = ground arith;
        issuer_stands = ground arith;
        begun = ground arith;
        lasts = ground arith;
        newest = ground arith;
        bytes = bytes;
        encodes = e;
        signed = ground arith;
      },
      ground arith,
    )
    | inr (x, e) ↦ absurd (ground arith)
  ]

  -- A link above the leaf.
  abbrev pub IsAbove : ParsedGrant → ParsedGrant × List ℕ → Type 0
  IsAbove leaf (g, signature) = IsAccepted scheme o revoked g signature × IsBelow leaf g

  pub check_grants-IsAbove :
      (leaf child : ParsedGrant) (rest : List (ParsedGrant × List ℕ))
      → IsBelow leaf child
      → check_grants scheme o revoked (some child) rest ≡ ok tt
      → All (IsAbove leaf) rest × AreLinked child rest
  unfolding check_grants
  check_grants-IsAbove leaf child [] below h = (tt, tt)
  check_grants-IsAbove leaf child ((g, signature) ∷ rest) below h =
      elim (Result-cases (check_grant scheme o revoked g signature (some child))) [
        | inl (u, e) ↦
            let (accepted, link) = check_grant-eq-ok g signature (some child) e in
            let (over, linked) = check_link-eq-ok g child link in
            let all_over = IsBelow-trans leaf child g below over in
            let (above, links) = check_grants-IsAbove leaf g rest all_over (rw e at h) in
            (((accepted, all_over), above), (linked, links))
        | inr (x, e) ↦ absurd (ground arith)
      ]
