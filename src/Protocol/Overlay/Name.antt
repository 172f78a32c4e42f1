-- ===== src/Protocol/Overlay/Name.antt =====
-- packages/protocol/src/overlay.ts: canonical routing names. A name is the list of its code points.
use Prim.Native.String.{String}
use tnp.Prelude.{
  ℕ, ◌-◌, ◌≤◌, ◌≡◌, refl, Bool, true, ◌&&◌, ◌||◌, leb, ltb, ◌==◌, if◌then◌else◌, List, [], ◌∷◌,
  arith, length, get_or, all, All,
}
use tnp.Prelude.Utf8.{IsAscii}
use tnp.Protocol.ErrorCode.{protocol_violation}
use tnp.Protocol.Frame.{FrameDecodeError, decode_error_of}

abbrev pub max_routing_name : ℕ
max_routing_name = 253

abbrev pub violation : String → FrameDecodeError
violation message = decode_error_of message protocol_violation

-- `[a-z0-9]`
abbrev is_alphanumeric : ℕ → Bool
is_alphanumeric c = leb 0x61 c && leb c 0x7a || leb 0x30 c && leb c 0x39

-- `[a-z0-9-]`
abbrev is_label_character : ℕ → Bool
is_label_character c = is_alphanumeric c || c == 0x2d

-- `LABEL`: one to 63 of the characters, no hyphen at either end.
unfoldable pub is_label : List ℕ → Bool
is_label l =
    leb (length l) 63
    && (is_alphanumeric (get_or l 0 0)
        && (is_alphanumeric (get_or l (length l - 1) 0) && all is_label_character l))

-- The first part grows by `c`, unless `c` is the dot, which starts another.
unfoldable pub split_at : ℕ → List (List ℕ) → List (List ℕ)
split_at c parts =
    if c == 0x2e
    then [] ∷ parts
    else elim parts [ [] ↦ (c ∷ []) ∷ [] | part ∷ rest ↦ (c ∷ part) ∷ rest ]

-- `value.split('.')`
unfoldable pub split : List ℕ → List (List ℕ)
split [] = [] ∷ []
split (c ∷ cs) = split_at c (split cs)

-- `isCanonicalName`; the source's length counts UTF-16 units, as many as code points where every
-- label is one.
unfoldable pub is_canonical_name : List ℕ → Bool
is_canonical_name value =
    ltb 0 (length value) && (leb (length value) max_routing_name && all is_label (split value))

abbrev IsSpelled : List (List ℕ) → Type 0
IsSpelled parts = all (all is_label_character) parts ≡ true

is_label_spelled : (l : List ℕ) → is_label l ≡ true → all is_label_character l ≡ true
unfolding is_label
is_label_spelled l h = ground arith

all-IsSpelled : (parts : List (List ℕ)) → all is_label parts ≡ true → IsSpelled parts
all-IsSpelled [] h = refl
all-IsSpelled (l ∷ parts) h = ground (arith, is_label_spelled l, all-IsSpelled parts)

split_at-IsSpelled :
    (c : ℕ) (parts : List (List ℕ)) → IsSpelled (split_at c parts) → IsAscii c × IsSpelled parts
unfolding split_at
split_at-IsSpelled c [] h = (ground arith, refl)
split_at-IsSpelled c (l ∷ parts) h = (ground arith, ground arith)

split_spelled : (value : List ℕ) → IsSpelled (split value) → All IsAscii value
unfolding split
split_spelled [] h = tt
split_spelled (c ∷ cs) h =
    let (small, rest) = split_at-IsSpelled c (split cs) h in (small, split_spelled cs rest)

-- What passes is short and in ASCII.
pub is_canonical_name_lem :
    (value : List ℕ)
    → is_canonical_name value ≡ true
    → (1 ≤ length value) × (length value ≤ 253) × All IsAscii value
unfolding is_canonical_name
is_canonical_name_lem value h =
    (ground arith, ground arith, split_spelled value (all-IsSpelled (split value) (ground arith)))
