-- ===== src/Crypto/Grants/Purposes.antt =====
-- The purposes of a grant: the parser takes each at most once, and their signed text gives back
-- which of them are there.
use tnp.Prelude.{
  ℕ, suc, ◌+◌, ◌*◌, ◌≤◌, ◌≡◌, ◌==◌, ==→eq, refl, sym, ap, ◌∙◌, false, not, if◌then◌else◌, leb,
  Option, none, some, List, [], ◌∷◌, ◌++◌, length, length-append, All, All-append, arith, ok,
  require-eq-ok, ok_inj, Bool-cases, Option-cases, inl, inr,
}
use mathlib.Core.Path.{subst}
use tnp.Prelude.Utf8.{IsAscii}
use tnp.Crypto.Encoding.{Field, absent, undefined, other, text, number, array}
use tnp.Crypto.Grants.{
  Purpose, delegate, service_node, domain_records, relay, client, purpose_text, all_purposes,
  purpose_of, index_of, includes, parse_purposes, purposes_field, insert_purpose, sort,
  join_purposes,
}

-- How often a purpose is listed.
pub count_of : Purpose → List Purpose → ℕ
count_of p [] = 0
count_of p (q ∷ ps) = (if index_of q == index_of p then 1 else 0) + count_of p ps

abbrev pub IsUnique : List Purpose → Type 0
IsUnique ps = (p : Purpose) → count_of p ps ≤ 1

count_of-append :
    (p q : Purpose) (ps : List Purpose)
    → count_of p (ps ++ (q ∷ [])) ≡ count_of p ps + (if index_of q == index_of p then 1 else 0)
unfolding count_of
count_of-append p q [] = omega arith
count_of-append p q (r ∷ ps) = omega (arith, count_of-append p q ps)

count_of-missing :
    (p q : Purpose) (ps : List Purpose)
    → includes ps q ≡ false
    → index_of q ≡ index_of p
    → count_of p ps ≡ 0
unfolding count_of includes
count_of-missing p q [] h e = refl
count_of-missing p q (r ∷ ps) h e = ground (arith, count_of-missing p q ps)

IsUnique-append :
    (q : Purpose) (ps : List Purpose)
    → IsUnique ps
    → includes ps q ≡ false
    → IsUnique (ps ++ (q ∷ []))
IsUnique-append q ps h e p = elim (Bool-cases (index_of q == index_of p)) [
  | inl d ↦ ground (arith, count_of-append p q ps, count_of-missing p q ps e (==→eq _ _ d))
  | inr d ↦ ground (arith, count_of-append p q ps, h p)
]

parse_purposes-IsUnique :
    (read : List Purpose) (rest : List (Option (List ℕ))) (ps : List Purpose)
    → IsUnique read
    → parse_purposes read rest ≡ ok ps
    → IsUnique ps
unfolding parse_purposes
parse_purposes-IsUnique read [] ps h e = subst IsUnique (ok_inj e) h
parse_purposes-IsUnique read (none ∷ rest) ps h e = absurd (ground arith)
parse_purposes-IsUnique read (some s ∷ rest) ps h e =
    elim (Option-cases (purpose_of all_purposes s)) [
      | inl d ↦ absurd (ground arith)
      | inr (p, d) ↦
          let (fresh, e1) = require-eq-ok (not (includes read p)) _ (rw (parse_purposes, d) at e) in
          parse_purposes-IsUnique (read ++ (p ∷ [])) rest ps
            (IsUnique-append p read h (ground arith)) e1
    ]

pub purposes_field-IsUnique :
    (f : Field) (ps : List Purpose) → purposes_field f ≡ ok ps → IsUnique ps
unfolding purposes_field
purposes_field-IsUnique (array (s ∷ rest)) ps h =
    parse_purposes-IsUnique [] (s ∷ rest) ps (λ p. unfold count_of in omega arith) h
purposes_field-IsUnique (array []) ps h = absurd (ground arith)
purposes_field-IsUnique absent ps h = absurd (ground arith)
purposes_field-IsUnique undefined ps h = absurd (ground arith)
purposes_field-IsUnique other ps h = absurd (ground arith)
purposes_field-IsUnique (text s) ps h = absurd (ground arith)
purposes_field-IsUnique (number n) ps h = absurd (ground arith)

total : List Purpose → ℕ
total ps =
    count_of delegate ps
    + count_of service_node ps
    + count_of domain_records ps
    + count_of relay ps
    + count_of client ps

length-total : (ps : List Purpose) → length ps ≡ total ps
unfolding total count_of
length-total [] = refl
length-total (delegate ∷ ps) = omega (arith, length-total ps)
length-total (service_node ∷ ps) = omega (arith, length-total ps)
length-total (domain_records ∷ ps) = omega (arith, length-total ps)
length-total (relay ∷ ps) = omega (arith, length-total ps)
length-total (client ∷ ps) = omega (arith, length-total ps)

pub length_unique : (ps : List Purpose) → IsUnique ps → length ps ≤ 5
unfolding total
length_unique ps h =
    omega (arith, length-total ps, h delegate, h service_node, h domain_records, h relay, h client)

insert_purpose-count :
    (p q : Purpose) (ps : List Purpose) → count_of p (insert_purpose q ps) ≡ count_of p (q ∷ ps)
unfolding insert_purpose count_of
insert_purpose-count p q [] = refl
insert_purpose-count p q (r ∷ ps) = ground (arith, insert_purpose-count p q ps)

pub sort-count : (p : Purpose) (ps : List Purpose) → count_of p (sort ps) ≡ count_of p ps
unfolding sort count_of
sort-count p [] = refl
sort-count p (q ∷ ps) =
    insert_purpose-count p q (sort ps) ∙ unfold count_of in omega (arith, sort-count p ps)

length-insert_purpose :
    (q : Purpose) (ps : List Purpose) → length (insert_purpose q ps) ≡ suc (length ps)
unfolding insert_purpose
length-insert_purpose q [] = refl
length-insert_purpose q (r ∷ ps) = ground (arith, length-insert_purpose q ps)

pub length-sort : (ps : List Purpose) → length (sort ps) ≡ length ps
unfolding sort
length-sort [] = refl
length-sort (q ∷ ps) = length-insert_purpose q (sort ps) ∙ ap suc (length-sort ps)

includes-count : (p : Purpose) (ps : List Purpose) → includes ps p ≡ leb 1 (count_of p ps)
unfolding includes count_of
includes-count p [] = refl
includes-count p (q ∷ ps) = ground (arith, includes-count p ps)

-- Sorted alike, two lists hold the same purposes.
pub sort-includes :
    (ps qs : List Purpose) (p : Purpose) → sort ps ≡ sort qs → includes ps p ≡ includes qs p
sort-includes ps qs p e =
    includes-count p ps
    ∙ ap (leb 1) (sym (sort-count p ps) ∙ ap (count_of p) e ∙ sort-count p qs)
    ∙ sym (includes-count p qs)

purpose_text-IsAscii : (p : Purpose) → All IsAscii (purpose_text p)
unfolding purpose_text
purpose_text-IsAscii delegate = ground arith
purpose_text-IsAscii service_node = ground arith
purpose_text-IsAscii domain_records = ground arith
purpose_text-IsAscii relay = ground arith
purpose_text-IsAscii client = ground arith

length-purpose_text : (p : Purpose) → length (purpose_text p) ≤ 14
unfolding purpose_text
length-purpose_text delegate = omega arith
length-purpose_text service_node = omega arith
length-purpose_text domain_records = omega arith
length-purpose_text relay = omega arith
length-purpose_text client = omega arith

pub join_purposes-IsAscii : (ps : List Purpose) → All IsAscii (join_purposes ps)
unfolding join_purposes
join_purposes-IsAscii [] = tt
join_purposes-IsAscii (p ∷ []) = purpose_text-IsAscii p
join_purposes-IsAscii (p ∷ q ∷ ps) =
    All-append IsAscii (purpose_text p) _ (purpose_text-IsAscii p)
      (omega arith, join_purposes-IsAscii (q ∷ ps))

pub length-join_purposes : (ps : List Purpose) → length (join_purposes ps) ≤ 15 * length ps
unfolding join_purposes
length-join_purposes [] = omega arith
length-join_purposes (p ∷ []) = omega (arith, length-purpose_text p)
length-join_purposes (p ∷ q ∷ ps) = omega (
  arith,
  length-purpose_text p,
  length-append (purpose_text p) (0x2c ∷ join_purposes (q ∷ ps)),
  length-join_purposes (q ∷ ps),
)
