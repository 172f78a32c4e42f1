-- ===== src/Prelude/Bits.antt =====
-- `x & ~0` and `x & ~3` on 32 bits.
use Prim.Native.Nat.{
  ℕ, zero, suc, ◌+◌, ◌*◌, ◌/◌, ◌^◌, ◌≤◌, ◌<◌, min, bit_and, digits, bit_and-bitwise,
}
use mathlib.Core.Path.{◌≡◌, refl}
use native.Mathlib.Nat.{pow-suc}
use native.Mathlib.Omega.{arith}

abbrev masked : (fuel x mask : ℕ) → ℕ
masked fuel x mask = digits (λ _. zero) min fuel x mask

-- A mask whose lowest `width` digits are ones keeps what fits in them.
masked_ones :
    (fuel width x mask : ℕ)
    → x ≤ fuel
    → x < 2 ^ width
    → mask + 1 ≡ 2 ^ width
    → masked fuel x mask ≡ x
masked_ones zero width zero mask f l e = refl
masked_ones zero width (suc x) mask f l e = absurd (omega arith)
masked_ones (suc fuel) width zero mask f l e = refl
masked_ones (suc fuel) zero (suc x) mask f l e = absurd (omega arith)
masked_ones (suc fuel) (suc width) (suc x) mask f l e = omega (
  arith,
  pow-suc 2 width,
  masked_ones fuel width (suc x / 2) (mask / 2) (omega arith) (omega (arith, pow-suc 2 width))
      (omega (arith, pow-suc 2 width)),
)

-- A zero below the ones clears the lowest digit.
masked_even :
    (fuel width x mask : ℕ)
    → x ≤ fuel
    → x / 2 < 2 ^ width
    → mask + 2 ≡ 2 * 2 ^ width
    → masked fuel x mask ≡ x / 2 * 2
masked_even zero width zero mask f l e = refl
masked_even zero width (suc x) mask f l e = absurd (omega arith)
masked_even (suc fuel) width zero mask f l e = refl
masked_even (suc fuel) width (suc x) mask f l e =
    omega (arith, masked_ones fuel width (suc x / 2) (mask / 2) (omega arith) l (omega arith))

-- And one more.
masked_fours :
    (fuel width x mask : ℕ)
    → x ≤ fuel
    → x / 4 < 2 ^ width
    → mask + 4 ≡ 4 * 2 ^ width
    → masked fuel x mask ≡ x / 4 * 4
masked_fours zero width zero mask f l e = refl
masked_fours zero width (suc x) mask f l e = absurd (omega arith)
masked_fours (suc fuel) width zero mask f l e = refl
masked_fours (suc fuel) width (suc x) mask f l e =
    omega (
      arith,
      masked_even fuel width (suc x / 2) (mask / 2) (omega arith) (omega arith) (omega arith),
    )

pub bit_and_all : (x : ℕ) → x < 2 ^ 32 → bit_and x 0xffff_ffff ≡ x
bit_and_all x l =
    omega
      (arith, bit_and-bitwise x 0xffff_ffff, masked_ones x 32 x 0xffff_ffff (omega arith) l refl)

pub bit_and_not_three : (x : ℕ) → x < 2 ^ 32 → bit_and x 0xffff_fffc ≡ x / 4 * 4
bit_and_not_three x l = omega (
  arith,
  bit_and-bitwise x 0xffff_fffc,
  masked_fours x 30 x 0xffff_fffc (omega arith) (omega arith) refl,
)
