-- ===== src/Crypto/Encoding.antt =====
-- packages/crypto/src/encoding.ts. A string is the list of its character codes; a string that is
-- decoded and holds a character past ASCII is refused, so that the units they are counted in do not
-- matter.
pub mod Base64
pub mod Writer
use Prim.Native.String.{String}
use tnp.Prelude.{
  ℕ, ◌+◌, ◌-◌, ◌*◌, ◌/◌, ◌%◌, ◌^◌, ◌==◌, Option, Bool, true, false, not, ◌&&◌, ltb, leb,
  if◌then◌else◌, List, [], ◌∷◌, ◌++◌, length, get_or, take, Result, ok, err, ◌>>=◌, ◌>>◌, require,
  Number, whole, not_whole, value,
}
use tnp.Prelude.Bytes.{u32_bytes, u64_bytes}
use tnp.Prelude.Texts.{same_text}
use tnp.Prelude.Utf8.{text_encode}

pub record EncodingError : Type 0 where
  pub message : String

abbrev pub encoding_error : String → EncodingError
encoding_error m = record { message = m }

abbrev pub public_key_length : ℕ
public_key_length = 32

abbrev pub signature_length : ℕ
signature_length = 64

-- `ALPHABET[d]`, for a digit below 64.
unfoldable pub letter : ℕ → ℕ
letter d =
    if ltb d 26
    then 65 + d
    else if ltb d 52
    then 71 + d
    else if ltb d 62
    then d - 4
    else if d == 62
    then 43
    else 47

-- `DECODE[c]`, or -1: the digit whose letter it is.
unfoldable pub digit : ℕ → Result EncodingError ℕ
digit c =
    if leb 65 c && leb c 90
    then ok (c - 65)
    else if leb 97 c && leb c 122
    then ok (c - 71)
    else if leb 48 c && leb c 57
    then ok (c + 4)
    else if c == 43
    then ok 62
    else if c == 47
    then ok 63
    else err (encoding_error "non-canonical base64 character")

-- The letters of three bytes, whose number is `n`.
abbrev pub letters : ℕ → List ℕ
letters n =
    letter (n / 2 ^ 18 % 64)
    ∷ letter (n / 2 ^ 12 % 64)
    ∷ letter (n / 2 ^ 6 % 64)
    ∷ letter (n % 64)
    ∷ []

unfoldable pub encode_base64 : List ℕ → List ℕ
encode_base64 [] = []
encode_base64 (a ∷ []) = take 2 (letters (a * 2 ^ 16)) ++ (61 ∷ 61 ∷ [])
encode_base64 (a ∷ b ∷ []) = take 3 (letters (a * 2 ^ 16 + b * 2 ^ 8)) ++ (61 ∷ [])
encode_base64 (a ∷ b ∷ c ∷ rest) = letters (a * 2 ^ 16 + b * 2 ^ 8 + c) ++ encode_base64 rest

-- How many of the last two characters are '='.
unfoldable pub padding_of : List ℕ → ℕ
padding_of s =
    if get_or s (length s - 1) 0 == 61 then if get_or s (length s - 2) 0 == 61 then 2 else 1 else 0

-- The digit at place `j` of four; '=' counts as 0 in the padding of the last four.
unfoldable pub digit_at : (last : Bool) (padding j c : ℕ) → Result EncodingError ℕ
digit_at last padding j c = if (c == 61) && (last && leb (4 - padding) j) then ok 0 else digit c

abbrev pub is_empty : List ℕ → Bool
is_empty [] = true
is_empty (c ∷ s) = false

-- The loop over four characters at a time; `room` is what `out` has left.
unfoldable pub decode_groups : (padding room : ℕ) → List ℕ → Result EncodingError (List ℕ)
decode_groups padding room (a ∷ b ∷ c ∷ d ∷ rest) = do
  let last = is_empty rest
  p ← digit_at last padding 0 a
  q ← digit_at last padding 1 b
  r ← digit_at last padding 2 c
  s ← digit_at last padding 3 d
  let n = ((p * 64 + q) * 64 + r) * 64 + s
  bytes ← decode_groups padding (room - 3) rest
  ok (take room (n / 2 ^ 16 % 256 ∷ n / 2 ^ 8 % 256 ∷ n % 256 ∷ []) ++ bytes)
decode_groups padding room s = ok []

unfoldable pub decode_base64_strict : List ℕ → ℕ → Result EncodingError (List ℕ)
decode_base64_strict s expected = do
  require (length s % 4 == 0) (encoding_error "base64 length is not a multiple of 4")
  let padding = padding_of s
  out ← decode_groups padding (length s / 4 * 3 - padding) s
  require (same_text (encode_base64 out) s) (encoding_error "non-canonical base64")
  require (length out == expected) (encoding_error "expected another number of bytes")
  ok out

-- `string | Uint8Array`
pub data KeyInput : Type 0 where
  encoded raw : List ℕ → KeyInput

unfoldable pub parse_public_key : KeyInput → Result EncodingError (List ℕ)
parse_public_key (raw input) = do
  require (length input == public_key_length) (encoding_error "public key must be 32 bytes")
  ok input
parse_public_key (encoded input) = decode_base64_strict input public_key_length

abbrev pub max_safe_integer : ℕ
max_safe_integer = 2 ^ 53 - 1

unfoldable pub assert_uint : Number → Result EncodingError (Unit {0})
assert_uint (whole n) =
    require (leb n max_safe_integer) (encoding_error "must be a non-negative safe integer")
assert_uint not_whole = err (encoding_error "must be a non-negative safe integer")

unfoldable pub concat_bytes : List (List ℕ) → List ℕ
concat_bytes [] = []
concat_bytes (part ∷ parts) = part ++ concat_bytes parts

-- `CanonicalWriter`
pub record CanonicalWriter : Type 0 where
  pub parts : List (List ℕ)

abbrev pub new_writer : CanonicalWriter
new_writer = record { parts = [] }

unfoldable pub push : CanonicalWriter → List ℕ → CanonicalWriter
push w part = record { parts = w.parts ++ (part ∷ []) }

unfoldable pub bytes_prefixed : CanonicalWriter → List ℕ → CanonicalWriter
bytes_prefixed w bytes = push (push w (u32_bytes (length bytes))) bytes

unfoldable pub write_string : CanonicalWriter → List ℕ → CanonicalWriter
write_string w text = bytes_prefixed w (text_encode text)

unfoldable pub fixed : CanonicalWriter → List ℕ → ℕ → Result EncodingError CanonicalWriter
fixed w bytes size = do
  require (length bytes == size) (encoding_error "expected another number of bytes")
  ok (push w bytes)

unfoldable pub uint : CanonicalWriter → Number → Result EncodingError CanonicalWriter
uint w n = do assert_uint n; ok (push w (u64_bytes (value n)))

unfoldable pub finish : CanonicalWriter → List ℕ
finish w = concat_bytes w.parts

-- What a field of an object from outside holds: nothing, `undefined`, a string, a number, an array,
-- of which only the strings are told apart, or something else.
pub data Field : Type 0 where
  absent undefined other : Field
  text : List ℕ → Field
  number : Number → Field
  array : List (Option (List ℕ)) → Field

-- `decodeBase64Strict` of such a value.
unfoldable pub decode_field : Field → ℕ → Result EncodingError (List ℕ)
decode_field (text s) expected = decode_base64_strict s expected
decode_field f expected = err (encoding_error "expected a base64 string")

-- `assertUint` of such a value, and the number.
unfoldable pub uint_field : Field → Result EncodingError ℕ
uint_field (number n) = do assert_uint n; ok (value n)
uint_field f = err (encoding_error "must be a non-negative safe integer")

-- A field that no object may have, or may have only where it is signed.
abbrev pub is_absent : Field → Bool
is_absent absent = true
is_absent f = false
