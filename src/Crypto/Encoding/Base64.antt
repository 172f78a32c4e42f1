-- ===== src/Crypto/Encoding/Base64.antt =====
-- encodeBase64 and decodeBase64Strict undo each other, and no two strings decode to the same bytes.
use mathlib.Core.Path.{subst}
use tnp.Prelude.{
  ◌↔◌, ℕ, ◌==◌, ◌^◌, zero, suc, ◌+◌, ◌-◌, ◌*◌, ◌/◌, ◌%◌, ◌<◌, ◌≤◌, ◌≡◌, refl, ◌∙◌, ap, Bool, true,
  false, List, [], ◌∷◌, ◌++◌, length, All, arith, take, ok, Result-cases, inl, inr,
}
use tnp.Prelude.Bytes.{IsByte}
use tnp.Prelude.Texts.{same_text_refl, same_text-eq}
use tnp.Crypto.Encoding.{
  letter, letters, digit, encode_base64, padding_of, digit_at, decode_groups, is_empty,
  decode_base64_strict,
}

digit-letter : (d : ℕ) → d < 64 → digit (letter d) ≡ ok d
unfolding digit letter
digit-letter d h = ground arith

letter-ne_pad : (d : ℕ) → (letter d == 61) ≡ false
unfolding letter
letter-ne_pad d = ground arith

digit_at-letter :
    (last : Bool) (padding j d : ℕ) → d < 64 → digit_at last padding j (letter d) ≡ ok d
unfolding digit_at
digit_at-letter last padding j d h = ground (arith, letter-ne_pad d, digit-letter d h)

-- The padding that the encoding of these bytes has.
pads : List ℕ → ℕ
pads [] = 0
pads (a ∷ []) = 2
pads (a ∷ b ∷ []) = 1
pads (a ∷ b ∷ c ∷ rest) = pads rest

length-encode_base64 :
    (bs : List ℕ)
    → (length (encode_base64 bs) % 4 ≡ 0)
      × (length (encode_base64 bs) / 4 * 3 ≡ length bs + pads bs)
unfolding encode_base64 pads
length-encode_base64 [] = (refl, refl)
length-encode_base64 (a ∷ []) = (refl, refl)
length-encode_base64 (a ∷ b ∷ []) = (refl, refl)
length-encode_base64 (a ∷ b ∷ c ∷ rest) =
    let (whole, size) = length-encode_base64 rest in (omega arith, omega arith)

padding_of-skip :
    (p q r : ℕ) (d : ℕ) (s : List ℕ)
    → length s % 4 ≡ 0
    → padding_of (p ∷ q ∷ r ∷ letter d ∷ s) ≡ padding_of s
unfolding padding_of
padding_of-skip p q r d [] h = rw (letter-ne_pad d) refl
padding_of-skip p q r d (w ∷ []) h = absurd (omega arith)
padding_of-skip p q r d (w ∷ x ∷ s) h =
    let far : suc (suc (suc (suc (suc (suc (length s)))))) - 2 ≡ suc (suc (suc (suc (length s)))) =
      omega arith in
    let far_last : suc (suc (suc (suc (suc (suc (length s)))))) - 1
        ≡ suc (suc (suc (suc (suc (length s))))) =
      omega arith in
    let near_last : suc (suc (length s)) - 1 ≡ suc (length s) = omega arith in
    let near : suc (suc (length s)) - 2 ≡ length s = omega arith in
    rw (far, near, far_last, near_last) refl

padding_of-encode_base64 : (bs : List ℕ) → padding_of (encode_base64 bs) ≡ pads bs
unfolding encode_base64 pads padding_of
padding_of-encode_base64 [] = refl
padding_of-encode_base64 (a ∷ []) = refl
padding_of-encode_base64 (a ∷ b ∷ []) =
    rw (letter-ne_pad ((a * 2 ^ 16 + b * 2 ^ 8) / 2 ^ 6 % 64)) refl
padding_of-encode_base64 (a ∷ b ∷ c ∷ rest) =
    padding_of-skip _ _ _ _ (encode_base64 rest) (length-encode_base64 rest).0
    ∙ padding_of-encode_base64 rest

take_nil : (n : ℕ) → take {A = ℕ} n [] ≡ []
take_nil zero = refl
take_nil (suc n) = refl

regroup :
    (n : ℕ)
    → n < 2 ^ 24
    → ((n / 2 ^ 18 % 64 * 64 + n / 2 ^ 12 % 64) * 64 + n / 2 ^ 6 % 64) * 64 + n % 64 ≡ n
regroup n h = omega arith

decode_groups-letters :
    (padding room left n : ℕ) (s out : List ℕ)
    → n < 2 ^ 24
    → room - 3 ≡ left
    → decode_groups padding left s ≡ ok out
    → decode_groups padding room (letters n ++ s)
      ≡ ok (take room (n / 2 ^ 16 % 256 ∷ n / 2 ^ 8 % 256 ∷ n % 256 ∷ []) ++ out)
unfolding decode_groups
decode_groups-letters padding room left n s out h same e =
    rw
      (
        same,
        digit_at-letter (is_empty s) padding 0 (n / 2 ^ 18 % 64) (omega arith),
        digit_at-letter (is_empty s) padding 1 (n / 2 ^ 12 % 64) (omega arith),
        digit_at-letter (is_empty s) padding 2 (n / 2 ^ 6 % 64) (omega arith),
        digit_at-letter (is_empty s) padding 3 (n % 64) (omega arith),
        e,
        regroup n h,
      )
      refl

digit_at_pad : (padding j : ℕ) → 4 ≤ padding + j → digit_at true padding j 61 ≡ ok 0
unfolding digit_at
digit_at_pad padding j h = ground arith

decode_groups-encode_base64 :
    (bs : List ℕ)
    → All IsByte bs
    → (p : ℕ) → p ≡ pads bs
    → decode_groups p (length bs) (encode_base64 bs) ≡ ok bs
unfolding encode_base64 pads
decode_groups-encode_base64 [] h p e = unfold decode_groups in refl
decode_groups-encode_base64 (a ∷ []) (x, h) p e =
    let back : ((a * 2 ^ 16 / 2 ^ 18 % 64 * 64 + a * 2 ^ 16 / 2 ^ 12 % 64) * 64 + 0) * 64 + 0
        ≡ a * 2 ^ 16 =
      omega arith in
    unfold decode_groups in
    rw
      (
        e,
        digit_at-letter true 2 0 (a * 2 ^ 16 / 2 ^ 18 % 64) (omega arith),
        digit_at-letter true 2 1 (a * 2 ^ 16 / 2 ^ 12 % 64) (omega arith),
        digit_at_pad 2 2 (omega arith),
        digit_at_pad 2 3 (omega arith),
      )
      (ap (λ n. ok (n ∷ [])) (omega arith))
decode_groups-encode_base64 (a ∷ b ∷ []) h p e =
    let x = h.0 in
    let y = h.1.0 in
    let n = a * 2 ^ 16 + b * 2 ^ 8 in
    let back : ((n / 2 ^ 18 % 64 * 64 + n / 2 ^ 12 % 64) * 64 + n / 2 ^ 6 % 64) * 64 + 0 ≡ n =
      omega arith in
    let first : n / 2 ^ 16 % 256 ≡ a = omega arith in
    let second : n / 2 ^ 8 % 256 ≡ b = omega arith in
    unfold decode_groups in
    rw
      (
        e,
        digit_at-letter true 1 0 (n / 2 ^ 18 % 64) (omega arith),
        digit_at-letter true 1 1 (n / 2 ^ 12 % 64) (omega arith),
        digit_at-letter true 1 2 (n / 2 ^ 6 % 64) (omega arith),
        digit_at_pad 1 3 (omega arith),
        back,
        first,
        second,
      )
      refl
decode_groups-encode_base64 (a ∷ b ∷ c ∷ rest) h p e =
    let x = h.0 in
    let y = h.1.0 in
    let z = h.1.1.0 in
    let n = a * 2 ^ 16 + b * 2 ^ 8 + c in
    let first : n / 2 ^ 16 % 256 ≡ a = omega arith in
    let second : n / 2 ^ 8 % 256 ≡ b = omega arith in
    let third : n % 256 ≡ c = omega arith in
    decode_groups-letters p (length (a ∷ b ∷ c ∷ rest)) (length rest) n (encode_base64 rest) rest
      (omega arith) (omega arith) (decode_groups-encode_base64 rest h.1.1.1 p e)
    ∙ rw (first, second, third, take_nil (length rest)) refl

-- Every encoding is accepted.
pub decode-encode_base64 :
    (bs : List ℕ) → All IsByte bs → decode_base64_strict (encode_base64 bs) (length bs) ≡ ok bs
unfolding decode_base64_strict
decode-encode_base64 bs h =
    let (even, size) = length-encode_base64 bs in
    let room : length (encode_base64 bs) / 4 * 3 - padding_of (encode_base64 bs) ≡ length bs =
      omega (arith, padding_of-encode_base64 bs) in
    ground (
      arith,
      room,
      padding_of-encode_base64 bs,
      decode_groups-encode_base64 bs h (pads bs) refl,
      same_text_refl (encode_base64 bs),
    )

-- What is accepted is what encodes to the string.
pub encode-decode_base64 :
    (s : List ℕ) (size : ℕ) (bytes : List ℕ)
    → decode_base64_strict s size ≡ ok bytes
    → (encode_base64 bytes ≡ s) × (length bytes ≡ size)
unfolding decode_base64_strict
encode-decode_base64 s size bytes h =
    elim (Result-cases (decode_groups (padding_of s) (length s / 4 * 3 - padding_of s) s)) [
      | inl (out, e) ↦ (same_text-eq _ _ (ground arith), ground arith)
      | inr (x, e) ↦ absurd (ground arith)
    ]

-- A string is accepted for some bytes exactly when it is their encoding.
pub decode_base64_strict-encode :
    (s bytes : List ℕ)
    → All IsByte bytes
    → (decode_base64_strict s (length bytes) ≡ ok bytes) ↔ (encode_base64 bytes ≡ s)
decode_base64_strict-encode s bytes h = (
  λ e. (encode-decode_base64 s (length bytes) bytes e).0,
  λ e.
      subst (λ r. decode_base64_strict r (length bytes) ≡ ok bytes) e
        (decode-encode_base64 bytes h),
)
