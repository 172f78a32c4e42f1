-- ===== src/Prelude/Bytes.antt =====
-- `Uint8Array` as a list of numbers below 256, and the big-endian accessors of `DataView`.
use Prim.Native.Nat.{ℕ, ◌+◌, ◌*◌, ◌/◌, ◌%◌, ◌^◌, ◌<◌}
use mathlib.Core.List.{List, [], ◌∷◌, ◌++◌}

abbrev pub IsByte : ℕ → Type 0
IsByte b = b < 256

-- `setUint16(_, n, false)`, and so on; what does not fit is reduced.
unfoldable pub u16_bytes : ℕ → List ℕ
u16_bytes n = n / 256 % 256 ∷ n % 256 ∷ []

unfoldable pub u32_bytes : ℕ → List ℕ
unfolding u16_bytes
u32_bytes n = u16_bytes (n / 2 ^ 16) ++ u16_bytes n

unfoldable pub u64_bytes : ℕ → List ℕ
unfolding u32_bytes
u64_bytes n = u32_bytes (n / 2 ^ 32) ++ u32_bytes n

unfoldable pub u16_of : ℕ → ℕ → ℕ
u16_of a b = a * 256 + b

unfoldable pub u32_of : ℕ → ℕ → ℕ → ℕ → ℕ
unfolding u16_of
u32_of a b c d = u16_of a b * 2 ^ 16 + u16_of c d

unfoldable pub u64_of : ℕ → ℕ → ℕ → ℕ → ℕ → ℕ → ℕ → ℕ → ℕ
unfolding u32_of
u64_of a b c d e f g h = u32_of a b c d * 2 ^ 32 + u32_of e f g h

-- `setBigUint64(_, n, true)`: little-endian.
unfoldable pub u64_bytes_le : ℕ → List ℕ
u64_bytes_le n =
    n % 256
    ∷ n / 2 ^ 8 % 256
    ∷ n / 2 ^ 16 % 256
    ∷ n / 2 ^ 24 % 256
    ∷ n / 2 ^ 32 % 256
    ∷ n / 2 ^ 40 % 256
    ∷ n / 2 ^ 48 % 256
    ∷ n / 2 ^ 56 % 256
    ∷ []

-- `fill(0)`
unfoldable pub wipe : List ℕ → List ℕ
wipe [] = []
wipe (b ∷ bs) = 0 ∷ wipe bs
