-- ===== src/Crypto/Encoding/Writer.antt =====
-- CanonicalWriter: where a field ends is read off the bytes, so that equal bytes have equal fields.
use tnp.Prelude.{
  ℕ, ◌^◌, ◌<◌, ◌≡◌, refl, sym, ap, ◌∙◌, List, [], ◌∷◌, ◌++◌, length, All, arith, take, drop,
  take-length_append, drop-length_append, ok, require-eq-ok, ok_inj, ◌==◌, ==→eq,
}
use tnp.Prelude.Bytes.{u16_bytes, u32_bytes, u64_bytes}
use tnp.Prelude.Utf8.{text_encode, encode_character, IsAscii}
use tnp.Crypto.Encoding.{CanonicalWriter, push, fixed}

-- Two byte strings whose first fields are as long as each other are equal field by field.
pub append_cut : (a b c d : List ℕ) → length a ≡ length c → a ++ b ≡ c ++ d → (a ≡ c) × (b ≡ d)
append_cut a b c d same e = (
  sym (take-length_append (length a) a b refl)
      ∙ ap (take (length a)) e
      ∙ take-length_append (length a) c d (sym same),
  sym (drop-length_append (length a) a b refl)
      ∙ ap (drop (length a)) e
      ∙ drop-length_append (length a) c d (sym same),
)

pub length-u32_bytes : (n : ℕ) → length (u32_bytes n) ≡ 4
unfolding u32_bytes
length-u32_bytes n = refl

pub length-u64_bytes : (n : ℕ) → length (u64_bytes n) ≡ 8
unfolding u64_bytes
length-u64_bytes n = refl

u32_bytes-injective : (n m : ℕ) → n < 2 ^ 32 → m < 2 ^ 32 → u32_bytes n ≡ u32_bytes m → n ≡ m
unfolding u32_bytes u16_bytes
u32_bytes-injective n m h k e = ground arith

u64_bytes-injective : (n m : ℕ) → n < 2 ^ 64 → m < 2 ^ 64 → u64_bytes n ≡ u64_bytes m → n ≡ m
unfolding u64_bytes u32_bytes u16_bytes
u64_bytes-injective n m h k e = ground arith

pub text_encode_ascii : (s : List ℕ) → All IsAscii s → text_encode s ≡ s
unfolding text_encode encode_character
text_encode_ascii [] h = refl
text_encode_ascii (c ∷ s) (small, h) = ground (arith, text_encode_ascii s h)

-- A field with its length in front ends where it ends.
pub prefixed_cut :
    (a b c d : List ℕ)
    → length a < 2 ^ 32
    → length c < 2 ^ 32
    → u32_bytes (length a) ++ (a ++ b) ≡ u32_bytes (length c) ++ (c ++ d)
    → (a ≡ c) × (b ≡ d)
prefixed_cut a b c d small_a small_c e =
    let (size, rest) =
      append_cut (u32_bytes (length a)) (a ++ b) (u32_bytes (length c)) (c ++ d)
        (length-u32_bytes _ ∙ sym (length-u32_bytes _)) e in
    append_cut a b c d (u32_bytes-injective _ _ small_a small_c size) rest

pub u64_cut :
    (n m : ℕ) (b d : List ℕ)
    → n < 2 ^ 64
    → m < 2 ^ 64
    → u64_bytes n ++ b ≡ u64_bytes m ++ d
    → (n ≡ m) × (b ≡ d)
u64_cut n m b d h k e =
    let (same, rest) =
      append_cut (u64_bytes n) b (u64_bytes m) d (length-u64_bytes _ ∙ sym (length-u64_bytes _))
        e in
    (u64_bytes-injective n m h k same, rest)

pub fixed-eq-ok :
    (w w' : CanonicalWriter) (b : List ℕ) (size : ℕ)
    → fixed w b size ≡ ok w'
    → (length b ≡ size) × (w' ≡ push w b)
unfolding fixed
fixed-eq-ok w w' b size h =
    let (fits, rest) = require-eq-ok (length b == size) _ h in (==→eq _ _ fits, sym (ok_inj rest))
