-- ===== src/Crypto/Grants/Parsing.antt =====
-- What the strict parser lets through: keys of 32 bytes that differ, safe times in order, and a
-- canonical scope on every key that is used for a name.
use mathlib.Core.Path.{subst}
use tnp.Prelude.{
  ℕ, suc, ap, ◌^◌, ◌<◌, ◌≡◌, refl, Bool, true, false, not, ◌&&◌, ◌||◌, ltb, Option, none, some,
  List, [], ◌∷◌, length, All, arith, ok, ok_inj, bind-eq-ok, require-eq-ok, whole, not_whole,
}
use tnp.Prelude.Texts.{same_text}
use tnp.Crypto.Encoding.{
  Field, absent, undefined, other, text, number, array, assert_uint, uint_field, parse_public_key,
  decode_field, is_absent,
}
use tnp.Crypto.Encoding.Base64.{encode-decode_base64}
use tnp.Crypto.Scope.{is_valid_scope}
use tnp.Crypto.Grants.{
  Purpose, delegate, includes, any_scoped, GrantInput, object, not_object, ParsedGrant,
  parse_unsigned, key_field, purposes_field, scope_field, unscoped, is_text,
}
use tnp.Crypto.Grants.Purposes.{IsUnique, purposes_field-IsUnique}
use tnp.Crypto.Grants.Verifying.{parse_chain, signature_field}

-- A scope that is given is canonical, and a key that is used for a name has one.
abbrev pub IsNamed : List Purpose → Option (List ℕ) → Type 0
IsNamed ps none = includes ps delegate || not (any_scoped ps) ≡ true
IsNamed ps (some s) = is_valid_scope s ≡ true

pub record IsParsed (g : ParsedGrant) : Type 0 where
  pub issuer_size : length g.issuer ≡ 32
  pub subject_size : length g.subject ≡ 32
  pub differ : same_text g.issuer g.subject ≡ false
  pub ordered : g.not_before < g.not_after
  pub from_safe : g.not_before < 2 ^ 53
  pub until_safe : g.not_after < 2 ^ 53
  pub serial_safe : g.serial < 2 ^ 53
  pub named : IsNamed g.purposes g.scope
  pub unique : IsUnique g.purposes

pub key_field-size : (f : Field) (key : List ℕ) → key_field f ≡ ok key → length key ≡ 32
unfolding key_field parse_public_key
key_field-size (text s) key h = (encode-decode_base64 s 32 key h).1
key_field-size absent key h = absurd (ground arith)
key_field-size undefined key h = absurd (ground arith)
key_field-size other key h = absurd (ground arith)
key_field-size (number n) key h = absurd (ground arith)
key_field-size (array a) key h = absurd (ground arith)

pub uint_field-safe : (f : Field) (n : ℕ) → uint_field f ≡ ok n → n < 2 ^ 53
unfolding uint_field assert_uint
uint_field-safe (number (whole m)) n h = ground arith
uint_field-safe (number not_whole) n h = absurd (ground arith)
uint_field-safe absent n h = absurd (ground arith)
uint_field-safe undefined n h = absurd (ground arith)
uint_field-safe other n h = absurd (ground arith)
uint_field-safe (text s) n h = absurd (ground arith)
uint_field-safe (array a) n h = absurd (ground arith)

unscoped-IsNamed : (ps : List Purpose) (s : Option (List ℕ)) → unscoped ps ≡ ok s → IsNamed ps s
unfolding unscoped
unscoped-IsNamed ps none h = ground arith
unscoped-IsNamed ps (some s) h = absurd (ground arith)

scope_field-IsNamed :
    (ps : List Purpose) (f : Field) (s : Option (List ℕ)) → scope_field ps f ≡ ok s → IsNamed ps s
unfolding scope_field
scope_field-IsNamed ps absent s h = unscoped-IsNamed ps s h
scope_field-IsNamed ps undefined s h = unscoped-IsNamed ps s h
scope_field-IsNamed ps (text t) none h = absurd (ground arith)
scope_field-IsNamed ps (text t) (some s) h = ground arith
scope_field-IsNamed ps other s h = absurd (ground arith)
scope_field-IsNamed ps (number n) s h = absurd (ground arith)
scope_field-IsNamed ps (array a) s h = absurd (ground arith)

pub parse_unsigned-IsParsed :
    (g : GrantInput) (allow : Bool) (parsed : ParsedGrant)
    → parse_unsigned g allow ≡ ok parsed
    → IsParsed parsed
unfolding parse_unsigned
parse_unsigned-IsParsed not_object allow parsed h = absurd (ground arith)
parse_unsigned-IsParsed (object g) allow parsed h =
    let (expected, h1) = require-eq-ok (not g.has_more && (is_absent g.signature || allow)) _ h in
    let (strings, h2) = require-eq-ok (is_text g.issuer && is_text g.subject) _ h1 in
    let (issuer, issuer_ok, h3) = bind-eq-ok (key_field g.issuer) h2 in
    let (subject, subject_ok, h4) = bind-eq-ok (key_field g.subject) h3 in
    let (differ, h5) = require-eq-ok (not (same_text issuer subject)) _ h4 in
    let (purposes, purposes_ok, h6) = bind-eq-ok (purposes_field g.purposes) h5 in
    let (from, from_ok, h7) = bind-eq-ok (uint_field g.not_before) h6 in
    let (until, until_ok, h8) = bind-eq-ok (uint_field g.not_after) h7 in
    let (serial, serial_ok, h9) = bind-eq-ok (uint_field g.serial) h8 in
    let (ordered, h10) = require-eq-ok (ltb from until) _ h9 in
    let (scope, scope_ok, h11) = bind-eq-ok (scope_field purposes g.scope) h10 in
    let same = ok_inj h11 in
    subst IsParsed same (record {
      issuer_size = key_field-size g.issuer issuer issuer_ok;
      subject_size = key_field-size g.subject subject subject_ok;
      differ = ground arith;
      ordered = ground arith;
      from_safe = uint_field-safe g.not_before from from_ok;
      until_safe = uint_field-safe g.not_after until until_ok;
      serial_safe = uint_field-safe g.serial serial serial_ok;
      named = scope_field-IsNamed purposes g.scope scope scope_ok;
      unique = purposes_field-IsUnique g.purposes purposes purposes_ok;
    })

pub parse_chain-IsParsed :
    (chain : List GrantInput) (parsed : List (ParsedGrant × List ℕ))
    → parse_chain chain ≡ ok parsed
    → (length parsed ≡ length chain) × All (λ e. IsParsed e.0) parsed
unfolding parse_chain
parse_chain-IsParsed [] parsed h =
    subst (λ ps. (length ps ≡ 0) × All (λ e. IsParsed e.0) ps) (ok_inj h) (refl, tt)
parse_chain-IsParsed (g ∷ chain) parsed h =
    let (first, first_ok, h1) = bind-eq-ok (parse_unsigned g true) h in
    let (signature, signature_ok, h2) = bind-eq-ok (decode_field (signature_field g) 64) h1 in
    let (rest, rest_ok, h3) = bind-eq-ok (parse_chain chain) h2 in
    let (size, all_parsed) = parse_chain-IsParsed chain rest rest_ok in
    subst (λ ps. (length ps ≡ suc (length chain)) × All (λ e. IsParsed e.0) ps) (ok_inj h3)
      (ap suc size, (parse_unsigned-IsParsed g true first first_ok, all_parsed))
