-- ===== src/Prelude/Texts.antt =====
-- The source's string literals as lists of code points, and `===` on strings.
use Prim.Native.Char.{code}
use Prim.Native.Nat.{ℕ}
use Prim.Native.String.{String, [] as empty, ◌∷◌ as ◌then◌}
use tnp.Prelude.{◌≡◌, refl, Bool, true, false, ◌&&◌, ◌==◌, ==→eq, List, [], ◌∷◌, arith}

unfoldable pub code_points : String → List ℕ
code_points empty = []
code_points (c then s) = code c ∷ code_points s

unfoldable pub same_text : List ℕ → List ℕ → Bool
same_text [] [] = true
same_text (a ∷ s) (b ∷ t) = a == b && same_text s t
same_text s t = false

pub same_text_refl : (s : List ℕ) → same_text s s ≡ true
unfolding same_text
same_text_refl [] = refl
same_text_refl (a ∷ s) = ground (arith, same_text_refl s)

pub same_text-eq : (s t : List ℕ) → same_text s t ≡ true → s ≡ t
unfolding same_text
same_text-eq [] [] h = refl
same_text-eq [] (b ∷ t) h = ground arith
same_text-eq (a ∷ s) [] h = ground arith
same_text-eq (a ∷ s) (b ∷ t) h = ground (arith, same_text-eq s t, ==→eq a b)

hello : code_points "tn" ≡ 0x74 ∷ 0x6e ∷ []
unfolding code_points
hello = refl
