-- ===== src/Prelude/Utf8.antt =====
-- The runtime's `TextDecoder('utf-8', { fatal: true })`, byte by byte as the Encoding standard
-- writes it, and its `TextEncoder`. A string is the list of its code points.
use tnp.Prelude.{
  ℕ, ◌+◌, ◌-◌, ◌*◌, ◌/◌, ◌%◌, ◌++◌, ◌<◌, ◌≡◌, refl, ◌&&◌, ltb, leb, ◌==◌, if◌then◌else◌, Option,
  none, some, List, [], ◌∷◌, All, arith, get_or, drop,
}

-- Bytes that a character still needs, its bits so far, and the bounds of the next byte.
pub record Utf8State : Type 0 where
  pub needed : ℕ
  pub bits : ℕ
  pub lower : ℕ
  pub upper : ℕ

abbrev pub utf8_start : Utf8State
utf8_start = record { needed = 0; bits = 0; lower = 0x80; upper = 0xbf }

abbrev lead : (needed bits lower upper : ℕ) → Utf8State
lead needed bits lower upper = record { needed = needed; bits = bits; lower = lower; upper = upper }

-- The first byte of a character of several bytes.
unfoldable pub lead_byte : ℕ → Option Utf8State
lead_byte b =
    if leb 0xc2 b && leb b 0xdf
    then some (lead 1 (b - 0xc0) 0x80 0xbf)
    else if leb 0xe0 b && leb b 0xef
    then some
        (lead 2 (b - 0xe0) (if b == 0xe0 then 0xa0 else 0x80) (if b == 0xed then 0x9f else 0xbf))
    else if leb 0xf0 b && leb b 0xf4
    then some
        (lead 3 (b - 0xf0) (if b == 0xf0 then 0x90 else 0x80) (if b == 0xf4 then 0x8f else 0xbf))
    else none

-- The state after a byte, and the character that it completes.
unfoldable pub utf8_step : Utf8State → ℕ → Option (Utf8State × List ℕ)
utf8_step s b =
    if s.needed == 0
    then if ltb b 0x80
      then some (utf8_start, b ∷ [])
      else elim (lead_byte b) [ none ↦ none | some s' ↦ some (s', []) ]
    else if leb s.lower b && leb b s.upper
    then if s.needed == 1
      then some (utf8_start, (s.bits * 64 + (b - 0x80)) ∷ [])
      else some (lead (s.needed - 1) (s.bits * 64 + (b - 0x80)) 0x80 0xbf, [])
    else none

abbrev emit : List ℕ → Option (List ℕ) → Option (List ℕ)
emit out none = none
emit [] (some cs) = some cs
emit (c ∷ out) (some cs) = some (c ∷ cs)

unfoldable pub utf8_from : Utf8State → List ℕ → Option (List ℕ)
utf8_from s [] = if s.needed == 0 then some [] else none
utf8_from s (b ∷ bs) = elim (utf8_step s b) [
  | none ↦ none
  | some (s', out) ↦ emit out (utf8_from s' bs)
]

-- A byte order mark in front is dropped.
unfoldable pub without_mark : List ℕ → List ℕ
without_mark bs =
    if get_or bs 0 256 == 0xef && (get_or bs 1 256 == 0xbb && get_or bs 2 256 == 0xbf)
    then drop 3 bs
    else bs

unfoldable pub text_decode : List ℕ → Option (List ℕ)
text_decode bs = utf8_from utf8_start (without_mark bs)

abbrev pub IsAscii : ℕ → Type 0
IsAscii c = c < 128

pub utf8_ascii : (bs : List ℕ) → All IsAscii bs → utf8_from utf8_start bs ≡ some bs
unfolding utf8_from utf8_step
utf8_ascii [] h = refl
utf8_ascii (b ∷ bs) (small, h) = ground (arith, utf8_ascii bs h)

without_mark_ascii : (bs : List ℕ) → All IsAscii bs → without_mark bs ≡ bs
unfolding without_mark
without_mark_ascii [] h = refl
without_mark_ascii (b ∷ bs) (small, h) = ground arith

pub text_decode_ascii : (bs : List ℕ) → All IsAscii bs → text_decode bs ≡ some bs
unfolding text_decode
text_decode_ascii bs h = ground (arith, without_mark_ascii bs h, utf8_ascii bs h)

pub text_decode_mark :
    (bs : List ℕ) → All IsAscii bs → text_decode (0xef ∷ 0xbb ∷ 0xbf ∷ bs) ≡ some bs
unfolding text_decode without_mark
text_decode_mark bs h = utf8_ascii bs h

-- `TextEncoder`, of one code point.
unfoldable pub encode_character : ℕ → List ℕ
encode_character c =
    if ltb c 0x80
    then c ∷ []
    else if ltb c 0x800
    then (0xc0 + c / 64) ∷ (0x80 + c % 64) ∷ []
    else if ltb c 0x1_0000
    then (0xe0 + c / 4096) ∷ (0x80 + c / 64 % 64) ∷ (0x80 + c % 64) ∷ []
    else (0xf0 + c / 262_144) ∷ (0x80 + c / 4096 % 64) ∷ (0x80 + c / 64 % 64) ∷ (0x80 + c % 64) ∷ []

unfoldable pub text_encode : List ℕ → List ℕ
text_encode [] = []
text_encode (c ∷ cs) = encode_character c ++ text_encode cs

hello : text_encode (0x74 ∷ 0xe9 ∷ []) ≡ 0x74 ∷ 0xc3 ∷ 0xa9 ∷ []
unfolding text_encode encode_character
hello = refl

kelvin : text_decode (0xe2 ∷ 0x84 ∷ 0xaa ∷ 0x61 ∷ []) ≡ some (0x212a ∷ 0x61 ∷ [])
unfolding text_decode without_mark utf8_from utf8_step lead_byte
kelvin = refl

overlong : text_decode (0xc0 ∷ 0xaf ∷ []) ≡ none
unfolding text_decode without_mark utf8_from utf8_step lead_byte
overlong = refl
