-- ===== src/Crypto/Grants/Joined.antt =====
-- The joined purposes can be taken apart again.
use tnp.Prelude.{
  ℕ, ◌≡◌, ◌==◌, refl, sym, ap, ◌∙◌, false, if◌then◌else◌, Option, some, List, [], ◌∷◌, ◌++◌, map,
  All, arith, inl, inr, Bool-cases,
}
use tnp.Prelude.Texts.{same_text}
use mathlib.Core.Option.{some_inj}
use tnp.Crypto.Grants.{
  Purpose, delegate, service_node, domain_records, relay, client, purpose_text, purpose_of,
  all_purposes, join_purposes,
}

-- The parts of a text between its commas.
put : ℕ → List (List ℕ) → List (List ℕ)
put c [] = (c ∷ []) ∷ []
put c (part ∷ parts) = if c == 0x2c then [] ∷ part ∷ parts else (c ∷ part) ∷ parts

cut : List ℕ → List (List ℕ)
cut [] = [] ∷ []
cut (c ∷ s) = put c (cut s)

abbrev NoComma : List ℕ → Type 0
NoComma s = All (λ c. (c == 0x2c) ≡ false) s

cut_last : (s : List ℕ) → NoComma s → cut s ≡ s ∷ []
unfolding cut put
cut_last [] h = refl
cut_last (c ∷ s) (d, h) = rw (cut_last s h, d) refl

cut_comma : (r : List ℕ) → (part : List ℕ) × (parts : List (List ℕ)) × (cut r ≡ part ∷ parts)
unfolding cut put
cut_comma [] = ([], [], refl)
cut_comma (c ∷ r) =
    let (part, parts, e) = cut_comma r in
    elim (Bool-cases (c == 0x2c)) [
      | inl d ↦ ([], part ∷ parts, rw (e, d) refl)
      | inr d ↦ (c ∷ part, parts, rw (e, d) refl)
    ]

cut-append : (s r : List ℕ) → NoComma s → cut (s ++ (0x2c ∷ r)) ≡ s ∷ cut r
unfolding cut put
cut-append [] r h = let (part, parts, e) = cut_comma r in rw e refl
cut-append (c ∷ s) r (d, h) = rw (cut-append s r h, d) refl

purpose_text-NoComma : (p : Purpose) → NoComma (purpose_text p)
unfolding purpose_text
purpose_text-NoComma delegate = ground arith
purpose_text-NoComma service_node = ground arith
purpose_text-NoComma domain_records = ground arith
purpose_text-NoComma relay = ground arith
purpose_text-NoComma client = ground arith

purpose_of-text : (p : Purpose) → purpose_of all_purposes (purpose_text p) ≡ some p
unfolding purpose_of purpose_text same_text
purpose_of-text delegate = refl
purpose_of-text service_node = refl
purpose_of-text domain_records = refl
purpose_of-text relay = refl
purpose_of-text client = refl

cut-join :
    (p : Purpose) (ps : List Purpose) → cut (join_purposes (p ∷ ps)) ≡ map purpose_text (p ∷ ps)
unfolding join_purposes
cut-join p [] = cut_last (purpose_text p) (purpose_text-NoComma p)
cut-join p (q ∷ ps) =
    cut-append (purpose_text p) (join_purposes (q ∷ ps)) (purpose_text-NoComma p)
    ∙ ap (λ r. purpose_text p ∷ r) (cut-join q ps)

abbrev present : Purpose → Option Purpose
present p = some p

read : List (List ℕ) → List (Option Purpose)
read parts = map (purpose_of all_purposes) parts

read-texts : (ps : List Purpose) → read (map purpose_text ps) ≡ map present ps
unfolding read
read-texts [] = refl
read-texts (p ∷ ps) = rw (purpose_of-text p, read-texts ps) refl

map-present-injective : (ps qs : List Purpose) → map present ps ≡ map present qs → ps ≡ qs
map-present-injective [] [] e = refl
map-present-injective [] (q ∷ qs) e = absurd (ground arith)
map-present-injective (p ∷ ps) [] e = absurd (ground arith)
map-present-injective (p ∷ ps) (q ∷ qs) e =
    let first : p ≡ q = some_inj.0 (ground arith) in
    let rest : ps ≡ qs = map-present-injective ps qs (ground arith) in rw (first, rest) refl

text_cons : (p : Purpose) → (c : ℕ) × (s : List ℕ) × (purpose_text p ≡ c ∷ s)
unfolding purpose_text
text_cons delegate = (_, _, refl)
text_cons service_node = (_, _, refl)
text_cons domain_records = (_, _, refl)
text_cons relay = (_, _, refl)
text_cons client = (_, _, refl)

join_purposes-empty : (p : Purpose) (ps : List Purpose) → join_purposes (p ∷ ps) ≡ [] → ⊥
unfolding join_purposes
join_purposes-empty p [] e = let (c, s, d) = text_cons p in ground (arith, d)
join_purposes-empty p (q ∷ ps) e =
    let (c, s, d) = text_cons p in
    let f : c ∷ (s ++ (0x2c ∷ join_purposes (q ∷ ps))) ≡ [] = rw d at e in ground arith

pub join_purposes-injective : (ps qs : List Purpose) → join_purposes ps ≡ join_purposes qs → ps ≡ qs
unfolding join_purposes
join_purposes-injective [] [] e = refl
join_purposes-injective [] (q ∷ qs) e = absurd (join_purposes-empty q qs (sym e))
join_purposes-injective (p ∷ ps) [] e = absurd (join_purposes-empty p ps e)
join_purposes-injective (p ∷ ps) (q ∷ qs) e = map-present-injective (p ∷ ps) (q ∷ qs) (
    sym (read-texts (p ∷ ps))
    ∙ ap read (sym (cut-join p ps) ∙ ap cut e ∙ cut-join q qs)
    ∙ read-texts (q ∷ qs))
