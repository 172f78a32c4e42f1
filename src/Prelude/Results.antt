-- ===== src/Prelude/Results.antt =====
-- What the source throws and returns: results, and the numbers that its range guards test.
use Prim.Native.Nat.{ℕ}
use mathlib.Core.Bool.{Bool, true, false}
use mathlib.Core.Path.{◌≡◌, Path, refl, ap}
use mathlib.Core.Logic.{◌⊎◌, inl, inr}
use mathlib.Core.Option.{Option, none, some}
use Prim.Native.String.{String}
use native.Mathlib.Omega.{arith}

-- A value, or the error that was thrown.
pub data Result {ℓ κ} (E : Type ℓ) (A : Type κ) : Type (ℓ ⊔ κ) where
  ok : A → Result E A
  err : E → Result E A

infixl 5 ◌>>=◌ ◌>>◌
abbrev pub ◌>>=◌ {ℓ κ μ} :
    {E : Type ℓ} {A : Type κ} {B : Type μ} → Result E A → (A → Result E B) → Result E B
ok a >>= f = f a
err e >>= f = err e

abbrev pub ◌>>◌ {ℓ μ} : {E : Type ℓ} {B : Type μ} → Result E (Unit {0}) → Result E B → Result E B
m >> k = m >>= λ _. k

-- `if (!condition) throw error`
abbrev pub require {ℓ} : {E : Type ℓ} → Bool → E → Result E (Unit {0})
require true e = ok tt
require false e = err e

-- A JavaScript `number` or `bigint` as `Number.isInteger(x) && x >= 0` sees it: a natural number,
-- or anything else (negative, fractional, infinite, NaN).
pub data Number : Type 0 where
  whole : ℕ → Number
  not_whole : Number

-- The natural number that is written to a buffer; what is not whole was refused before.
abbrev pub value : Number → ℕ
value (whole n) = n
value not_whole = 0

-- `o ?? d`
abbrev pub default_to {ℓ} : {A : Type ℓ} → A → Option A → A
default_to d none = d
default_to d (some a) = a

-- A built-in `RangeError`; the values interpolated in a message are left out.
pub record RangeError : Type 0 where
  pub message : String

pub Result-cases {ℓ κ} :
    {E : Type ℓ} {A : Type κ} (r : Result E A) → ((a : A) × (r ≡ ok a)) ⊎ ((e : E) × (r ≡ err e))
Result-cases (ok a) = inl (a, refl)
Result-cases (err e) = inr (e, refl)

-- A chain that succeeds has succeeded at each step.
pub bind-eq-ok {ℓ κ μ} :
    {E : Type ℓ} {A : Type κ} {B : Type μ} (m : Result E A) {f : A → Result E B} {b : B}
    → (m >>= f) ≡ ok b
    → (a : A) × (m ≡ ok a) × (f a ≡ ok b)
bind-eq-ok (ok a) h = (a, refl, h)
bind-eq-ok (err e) h = absurd (ground arith)

pub require-eq-ok {ℓ μ} :
    {E : Type ℓ} {B : Type μ} (c : Bool) (e : E) {k : Result E B} {b : B}
    → (require c e >> k) ≡ ok b
    → (c ≡ true) × (k ≡ ok b)
require-eq-ok true e h = (refl, h)
require-eq-ok false e h = absurd (ground arith)

from_ok {ℓ κ} : {E : Type ℓ} {A : Type κ} → Result E A → A → A
from_ok (ok a) other = a
from_ok (err e) other = other

pub ok_inj {ℓ κ} : {E : Type ℓ} {A : Type κ} {a b : A} → Path (Result E A) (ok a) (ok b) → a ≡ b
unfolding from_ok
ok_inj {a = a} h = ap (λ r. from_ok r a) h

from_err {ℓ κ} : {E : Type ℓ} {A : Type κ} → Result E A → E → E
from_err (ok a) other = other
from_err (err e) other = e

pub err_inj {ℓ κ} : {E : Type ℓ} {A : Type κ} {a b : E} → Path (Result E A) (err a) (err b) → a ≡ b
unfolding from_err
err_inj {a = a} h = ap (λ r. from_err r a) h
