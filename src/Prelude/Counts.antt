-- ===== src/Prelude/Counts.antt =====
-- A counter of the source that is also decreased: an integer, over the native numbers.
use Prim.Native.Nat.{ℕ, zero, suc, ◌≤◌}
use mathlib.Core.Path.{◌≡◌, refl}
use mathlib.Core.Bool.{Bool, false}
use tnp.Prelude.Tests.{leb}
use native.Mathlib.Omega.{arith}

-- `negsuc n` is -(n + 1).
pub data ℤ : Type 0 where
  pos negsuc : ℕ → ℤ

-- `n++` and `n--`
unfoldable pub increment : ℤ → ℤ
increment (pos n) = pos (suc n)
increment (negsuc zero) = pos zero
increment (negsuc (suc n)) = negsuc n

unfoldable pub decrement : ℤ → ℤ
decrement (pos zero) = negsuc zero
decrement (pos (suc n)) = pos n
decrement (negsuc n) = negsuc (suc n)

-- `z >= n`
unfoldable pub at_least : ℤ → ℕ → Bool
at_least (pos z) n = leb n z
at_least (negsuc z) n = false

abbrev pub AtMost : ℤ → ℕ → Type 0
AtMost (pos z) n = z ≤ n
AtMost (negsuc z) n = Unit

-- The order of the integers, where one is below another that is at most a bound.
abbrev pub Below : ℤ → ℤ → Type 0
Below (pos a) (pos b) = a ≤ b
Below (pos a) (negsuc b) = ⊥
Below (negsuc a) (pos b) = Unit
Below (negsuc a) (negsuc b) = b ≤ a

pub Below-refl : (a : ℤ) → Below a a
Below-refl (pos a) = omega arith
Below-refl (negsuc a) = omega arith

pub Below-trans : (a b c : ℤ) → Below a b → Below b c → Below a c
Below-trans (pos a) (pos b) (pos c) h k = omega arith
Below-trans (pos a) (pos b) (negsuc c) h k = k
Below-trans (pos a) (negsuc b) c h k = absurd h
Below-trans (negsuc a) b (pos c) h k = tt
Below-trans (negsuc a) (pos b) (negsuc c) h k = absurd k
Below-trans (negsuc a) (negsuc b) (negsuc c) h k = omega arith

pub AtMost-Below : (a b : ℤ) (n : ℕ) → Below a b → AtMost b n → AtMost a n
AtMost-Below (pos a) (pos b) n h k = omega arith
AtMost-Below (pos a) (negsuc b) n h k = absurd h
AtMost-Below (negsuc a) b n h k = tt

pub decrement-Below : (a : ℤ) → Below (decrement a) a
unfolding decrement
decrement-Below (pos zero) = tt
decrement-Below (pos (suc a)) = omega arith
decrement-Below (negsuc a) = omega arith

-- What a guard `count >= limit` has let through may grow by one.
pub increment-AtMost : (a : ℤ) (n : ℕ) → at_least a n ≡ false → AtMost (increment a) n
unfolding increment at_least
increment-AtMost (pos a) n h = ground arith
increment-AtMost (negsuc zero) n h = omega arith
increment-AtMost (negsuc (suc a)) n h = tt

-- A guard that holds of a count holds of what is below it.
pub at_least-Below : (a b : ℤ) (n : ℕ) → Below a b → at_least b n ≡ false → at_least a n ≡ false
unfolding at_least
at_least-Below (pos a) (pos b) n h k = ground arith
at_least-Below (pos a) (negsuc b) n h k = absurd h
at_least-Below (negsuc a) b n h k = refl
