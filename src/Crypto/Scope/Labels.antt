-- ===== src/Crypto/Scope/Labels.antt =====
-- A scope covers the names that have its labels at the end, and none that only ends in the same
-- letters.
use mathlib.Core.List.{append_assoc}
use mathlib.Core.Path.{subst}
use tnp.Prelude.{
  ℕ, suc, ◌-◌, ◌≡◌, refl, sym, ap, ◌∙◌, true, ◌||◌, ◌==◌, List, [], ◌∷◌, ◌++◌, length, drop, take,
  take-append-drop, drop-length_append, length-append, arith, Bool-cases, inl, inr, ◌↔◌, leb,
}
use tnp.Prelude.Texts.{same_text, same_text-eq, same_text_refl}
use tnp.Protocol.Overlay.Name.{split, split_at}
use tnp.Crypto.Scope.{is_valid_scope, ends_with, scope_covers}

ends_with-eq :
    (s suffix : List ℕ)
    → ends_with s suffix ≡ true
    → take (length s - length suffix) s ++ suffix ≡ s
unfolding ends_with
ends_with-eq s suffix h =
    ap (λ r. take (length s - length suffix) s ++ r)
      (sym (same_text-eq (drop (length s - length suffix) s) suffix (ground arith)))
    ∙ take-append-drop (length s - length suffix) s

ends_with-append : (front suffix : List ℕ) → ends_with (front ++ suffix) suffix ≡ true
unfolding ends_with
ends_with-append front suffix =
    let sum = length-append front suffix in
    let size : length (front ++ suffix) - length suffix ≡ length front = omega (arith, sum) in
    let fits : leb (length suffix) (length (front ++ suffix)) ≡ true = ground (arith, sum) in
    rw (fits, size, drop-length_append (length front) front suffix refl) (same_text_refl suffix)

-- `parts.join('.')`
join : List (List ℕ) → List ℕ
join [] = []
join (l ∷ []) = l
join (l ∷ m ∷ parts) = l ++ (0x2e ∷ join (m ∷ parts))

split_at-append :
    (c : ℕ) (l : List ℕ) (parts rest : List (List ℕ))
    → split_at c (l ∷ parts ++ rest) ≡ split_at c (l ∷ parts) ++ rest
unfolding split_at
split_at-append c l parts rest = elim (Bool-cases (c == 0x2e)) [
  | inl e ↦ rw e refl
  | inr e ↦ rw e refl
]

-- Splitting gives at least one part.
split_cons : (s : List ℕ) → (l : List ℕ) × (parts : List (List ℕ)) × (split s ≡ l ∷ parts)
unfolding split split_at
split_cons [] = ([], [], refl)
split_cons (c ∷ s) =
    let (l, parts, e) = split_cons s in
    elim (Bool-cases (c == 0x2e)) [
      | inl d ↦ ([], split s, rw d refl)
      | inr d ↦ (c ∷ l, parts, rw (d, e) refl)
    ]

split-append_dot : (front s : List ℕ) → split (front ++ (0x2e ∷ s)) ≡ split front ++ split s
unfolding split
split-append_dot [] s = unfold split_at in refl
split-append_dot (c ∷ front) s =
    let (l, parts, e) = split_cons front in
    rw (split-append_dot front s, e) (split_at-append c l parts (split s))

join-split_at :
    (c : ℕ) (l : List ℕ) (parts : List (List ℕ))
    → join (split_at c (l ∷ parts)) ≡ c ∷ join (l ∷ parts)
unfolding split_at join
join-split_at c l [] = ground arith
join-split_at c l (m ∷ parts) = ground arith

join-split : (s : List ℕ) → join (split s) ≡ s
unfolding split
join-split [] = unfold join in refl
join-split (c ∷ s) =
    let (l, parts, e) = split_cons s in
    ap (λ r. join (split_at c r)) e
    ∙ join-split_at c l parts
    ∙ ap (λ r. c ∷ r) (ap join (sym e) ∙ join-split s)

join-append :
    (l m : List ℕ) (parts rest : List (List ℕ))
    → join ((l ∷ parts) ++ (m ∷ rest)) ≡ join (l ∷ parts) ++ (0x2e ∷ join (m ∷ rest))
unfolding join
join-append l m [] rest = refl
join-append l m (k ∷ parts) rest =
    ap (λ r. l ++ (0x2e ∷ r)) (join-append k m parts rest) ∙ sym (append_assoc l _ _)

-- The labels of `outer` are the last labels of `inner`.
pub IsUnder : (outer inner : List ℕ) → Type 0
IsUnder outer inner = (front : List (List ℕ)) × (split inner ≡ front ++ split outer)

IsUnder-of_covers :
    (outer inner : List ℕ)
    → same_text inner outer || ends_with inner (0x2e ∷ outer) ≡ true
    → IsUnder outer inner
unfolding IsUnder
IsUnder-of_covers outer inner h = elim (Bool-cases (same_text inner outer)) [
  | inl e ↦ ([], ap split (same_text-eq inner outer e))
  | inr e ↦
      let under : ends_with inner (0x2e ∷ outer) ≡ true = rw e at h in
      let front = take (length inner - suc (length outer)) inner in
      (
        split front,
        ap split (sym (ends_with-eq inner (0x2e ∷ outer) under)) ∙ split-append_dot front outer,
      )
]

covers_of_IsUnder :
    (outer inner : List ℕ)
    → IsUnder outer inner
    → same_text inner outer || ends_with inner (0x2e ∷ outer) ≡ true
unfolding IsUnder
covers_of_IsUnder outer inner ([], e) =
    let same : inner ≡ outer = sym (join-split inner) ∙ ap join e ∙ join-split outer in
    rw (same, same_text_refl outer) refl
covers_of_IsUnder outer inner (l ∷ front, e) =
    let (m, rest, f) = split_cons outer in
    let same : inner ≡ join (l ∷ front) ++ (0x2e ∷ outer) =
      sym (join-split inner)
      ∙ ap join (e ∙ ap (λ r. (l ∷ front) ++ r) f)
      ∙ join-append l m front rest
      ∙ ap (λ r. join (l ∷ front) ++ (0x2e ∷ r)) (ap join (sym f) ∙ join-split outer) in
    ground (
      arith,
      subst (λ i. ends_with i (0x2e ∷ outer) ≡ true) (sym same)
          (ends_with-append (join (l ∷ front)) (0x2e ∷ outer)),
    )

-- A scope covers another exactly when both are canonical and its labels are the other's last ones.
pub scope_covers-IsUnder :
    (outer inner : List ℕ)
    → (scope_covers outer inner ≡ true)
      ↔ (is_valid_scope outer ≡ true) × (is_valid_scope inner ≡ true) × IsUnder outer inner
unfolding scope_covers
scope_covers-IsUnder outer inner = (
  λ h. (ground arith, ground arith, IsUnder-of_covers outer inner (ground arith)),
  λ h. ground (arith, h.0, h.1, covers_of_IsUnder outer inner h.2),
)

pub scope_covers_refl : (s : List ℕ) → is_valid_scope s ≡ true → scope_covers s s ≡ true
unfolding scope_covers
scope_covers_refl s h = ground (arith, h, same_text_refl s)

IsUnder-trans : (a b c : List ℕ) → IsUnder a b → IsUnder b c → IsUnder a c
unfolding IsUnder
IsUnder-trans a b c (f, e) (g, d) =
    (g ++ f, d ∙ ap (λ r. g ++ r) e ∙ sym (append_assoc g f (split a)))

pub scope_covers_trans :
    (a b c : List ℕ) → scope_covers a b ≡ true → scope_covers b c ≡ true → scope_covers a c ≡ true
scope_covers_trans a b c h k =
    let (valid_a, valid_b, under) = (scope_covers-IsUnder a b).0 h in
    let (also_b, valid_c, over) = (scope_covers-IsUnder b c).0 k in
    (scope_covers-IsUnder a c).1 (valid_a, valid_c, IsUnder-trans a b c under over)
