-- ===== src/Protocol/Frame/Errors.antt =====
-- packages/protocol/src/frame.ts: ERROR frames. A detail is the list of its code points, none of
-- them half of a surrogate pair.
use tnp.Prelude.{
  ℕ, zero, suc, ◌+◌, ◌-◌, ◌%◌, ◌≤◌, ◌<◌, ◌≡◌, refl, ap, ◌∙◌, Bool, true, false, ◌&&◌, ltb, leb,
  if◌then◌else◌, some, none, List, [], ◌∷◌, ◌++◌, length, get_or, take, arith, Result, RangeError,
  Bool-cases, inl, inr, length-append, Number, sym,
}
use mathlib.Core.Path.{subst}
use tnp.Prelude.Bytes.{u16_bytes}
use tnp.Prelude.Utf8.{encode_character, text_encode}
use tnp.Protocol.Constants.{max_error_detail}
use tnp.Protocol.Frame.{encode_frame}
use tnp.Protocol.FrameType.{error_frame}

-- `(byte & 0xc0) === 0x80`: the two highest bits of the byte are 10.
unfoldable pub is_continuation : ℕ → Bool
is_continuation b = leb 0x80 b && ltb b 0xc0

-- The loop that backs up from `end`.
unfoldable pub back_up : ℕ → List ℕ → ℕ
back_up zero encoded = zero
back_up (suc n) encoded =
    let before = back_up n encoded in
    if is_continuation (get_or encoded (suc n) 0) then before else suc n

unfoldable pub truncate_utf8 : List ℕ → ℕ → List ℕ
truncate_utf8 text max_bytes =
    let encoded = text_encode text in
    if leb (length encoded) max_bytes then encoded else take (back_up max_bytes encoded) encoded

unfoldable pub encode_error :
    (code scope : ℕ)
    → (detail : List ℕ) → (circuit_id stream_id : Number) → Result RangeError (List ℕ)
unfolding u16_bytes
encode_error code scope detail circuit_id stream_id = encode_frame (record {
  type = error_frame;
  circuit_id = some circuit_id;
  stream_id = some stream_id;
  flags = none;
  payload = some (u16_bytes code ++ (scope % 256 ∷ truncate_utf8 detail max_error_detail));
})

-- The longest run of whole characters, from the first one on, that takes no more than a number of
-- bytes.
unfoldable pub fitting : ℕ → List ℕ → List ℕ
fitting max [] = []
fitting max (c ∷ cs) =
    let size = length (encode_character c) in
    let rest = fitting (max - size) cs in if leb size max then c ∷ rest else []

-- A text begins with no continuation byte.
encode_character-head :
    (c : ℕ) (ys : List ℕ) → is_continuation (get_or (encode_character c ++ ys) 0 0) ≡ false
unfolding is_continuation encode_character
encode_character-head c ys = ground arith

text_encode-head : (cs : List ℕ) → is_continuation (get_or (text_encode cs) 0 0) ≡ false
unfolding text_encode
text_encode-head [] = unfold is_continuation in refl
text_encode-head (c ∷ cs) = encode_character-head c (text_encode cs)

get_or-append : (xs ys : List ℕ) (e : ℕ) → get_or (xs ++ ys) (length xs + e) 0 ≡ get_or ys e 0
get_or-append [] ys e = let s : 0 + e ≡ e = omega arith in rw s refl
get_or-append (x ∷ xs) ys e =
    let s : suc (length xs) + e ≡ suc (length xs + e) = omega arith in rw s (get_or-append xs ys e)

-- Backing up from within a second part stays there, when that begins with no continuation byte.
back_up-stop :
    (n : ℕ) (encoded : List ℕ)
    → is_continuation (get_or encoded n 0) ≡ false
    → back_up n encoded ≡ n
unfolding back_up
back_up-stop zero encoded h = refl
back_up-stop (suc n) encoded h = rw h refl

back_up-append :
    (xs ys : List ℕ) (e : ℕ)
    → is_continuation (get_or ys 0 0) ≡ false
    → back_up (length xs + e) (xs ++ ys) ≡ length xs + back_up e ys
unfolding back_up
back_up-append xs ys zero h = back_up-stop (length xs + 0) (xs ++ ys) (rw (get_or-append xs ys 0) h)
back_up-append xs ys (suc e) h =
    let s : length xs + suc e ≡ suc (length xs + e) = omega arith in
    let byte : get_or (xs ++ ys) (suc (length xs + e)) 0 ≡ get_or ys (suc e) 0 =
      rw (← s) (get_or-append xs ys (suc e)) in
    ground (arith, s, byte, back_up-append xs ys e h)

-- Backing up from within a character reaches its start.
back_up-character :
    (c e : ℕ) (ys : List ℕ)
    → e < length (encode_character c)
    → back_up e (encode_character c ++ ys) ≡ 0
unfolding back_up is_continuation encode_character
back_up-character c zero ys h = refl
back_up-character c (suc zero) ys h = ground arith
back_up-character c (suc (suc zero)) ys h = ground arith
back_up-character c (suc (suc (suc zero))) ys h = ground arith
back_up-character c (suc (suc (suc (suc e)))) ys h = absurd (ground arith)

take-append : (xs ys : List ℕ) (n : ℕ) → take (length xs + n) (xs ++ ys) ≡ xs ++ take n ys
take-append [] ys n = let s : 0 + n ≡ n = omega arith in rw s refl
take-append (x ∷ xs) ys n =
    let s : suc (length xs) + n ≡ suc (length xs + n) = omega arith in
    rw s (ap (λ r. x ∷ r) (take-append xs ys n))

take-back_up :
    (end : ℕ) (cs : List ℕ)
    → end < length (text_encode cs)
    → take (back_up end (text_encode cs)) (text_encode cs) ≡ text_encode (fitting end cs)
unfolding text_encode fitting
take-back_up end [] h = absurd (omega arith)
take-back_up end (c ∷ cs) h =
    let size = length (encode_character c) in
    let total = length-append (encode_character c) (text_encode cs) in
    elim (Bool-cases (leb size end)) [
      | inr small ↦
          let inside = back_up-character c end (text_encode cs) (ground arith) in
          rw (small, inside) refl
      | inl fits ↦
          let left : end - size < length (text_encode cs) = ground (arith, total) in
          let whole_size : size + (end - size) ≡ end = ground arith in
          let backed : back_up end (encode_character c ++ text_encode cs)
              ≡ size + back_up (end - size) (text_encode cs) =
            subst
              (λ x.
                back_up x (encode_character c ++ text_encode cs)
                ≡ size + back_up (end - size) (text_encode cs))
              whole_size
              (back_up-append (encode_character c) (text_encode cs) (end - size)
                (text_encode-head cs)) in
          rw (fits, backed)
            (take-append (encode_character c) (text_encode cs) _
              ∙ ap (λ r. encode_character c ++ r) (take-back_up (end - size) cs left))
    ]

fitting_all : (max : ℕ) (cs : List ℕ) → length (text_encode cs) ≤ max → fitting max cs ≡ cs
unfolding fitting text_encode
fitting_all max [] h = refl
fitting_all max (c ∷ cs) h =
    let total = length-append (encode_character c) (text_encode cs) in
    let fits : leb (length (encode_character c)) max ≡ true = ground (arith, total) in
    rw fits
      (ap (λ r. c ∷ r) (fitting_all (max - length (encode_character c)) cs (omega (arith, total))))

length-fitting : (max : ℕ) (cs : List ℕ) → length (text_encode (fitting max cs)) ≤ max
unfolding fitting text_encode
length-fitting max [] = omega arith
length-fitting max (c ∷ cs) =
    let size = length (encode_character c) in
    elim (Bool-cases (leb size max)) [
      | inr small ↦ rw small (omega arith)
      | inl fits ↦ rw fits (
          ground (
            arith,
            length-append (encode_character c) (text_encode (fitting (max - size) cs)),
            length-fitting (max - size) cs,
          ))
    ]

-- A text that is truncated is the encoding of the longest run of its first characters that fits, so
-- no character is cut, and it takes no more bytes than it may.
pub truncate_utf8_lem :
    (text : List ℕ) (max_bytes : ℕ)
    → (truncate_utf8 text max_bytes ≡ text_encode (fitting max_bytes text))
      × (length (truncate_utf8 text max_bytes) ≤ max_bytes)
unfolding truncate_utf8
truncate_utf8_lem text max_bytes =
    let same : truncate_utf8 text max_bytes ≡ text_encode (fitting max_bytes text) =
      elim (Bool-cases (leb (length (text_encode text)) max_bytes)) [
        | inl fits ↦ rw (fits, fitting_all max_bytes text (ground arith)) refl
        | inr long ↦ rw long (take-back_up max_bytes text (ground arith))
      ] in
    (same, subst (λ x. length x ≤ max_bytes) (sym same) (length-fitting max_bytes text))
