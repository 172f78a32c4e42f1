-- ===== src/Protocol/Overlay/Circuit.antt =====
-- packages/protocol/src/overlay.ts: CIRCUIT_CREATE, CIRCUIT_CREATED and CIRCUIT_DESTROY.
use tnp.Prelude.{
  ℕ, ◌+◌, ◌%◌, ◌≤◌, ◌<◌, ◌≡◌, true, not, ◌&&◌, leb, ◌==◌, none, some, List, [], ◌∷◌, ◌++◌, arith,
  length, get_or, take, drop, All, Result, ok, err, ◌>>◌, require, Number, whole, not_whole,
  RangeError, length-append, take-length_append, drop-length_append,
}
use tnp.Prelude.Bytes.{u16_bytes, u16_of, IsByte}
use tnp.Prelude.Utf8.{text_decode, text_decode_ascii, text_decode_mark}
use tnp.Protocol.Constants.{handshake_message_size}
use tnp.Protocol.Frame.{FrameDecodeError, range_error}
use tnp.Protocol.Overlay.Name.{violation, is_canonical_name, is_canonical_name_lem}

-- A name in ASCII is its own encoding.
unfoldable pub encode_circuit_create : (name message1 : List ℕ) → Result RangeError (List ℕ)
encode_circuit_create name message1 = do
  require (is_canonical_name name) (range_error "routing name is not a canonical name")
  require (length message1 == handshake_message_size)
      (range_error "handshake message must be HANDSHAKE_MESSAGE_SIZE bytes")
  ok ((length name % 256) ∷ (name ++ message1))

pub record CircuitCreate : Type 0 where
  pub name : List ℕ
  pub message1 : List ℕ

abbrev name_length : List ℕ → ℕ
name_length payload = get_or payload 0 0

unfoldable pub decode_circuit_create : List ℕ → Result FrameDecodeError CircuitCreate
decode_circuit_create payload = do
  require (leb (2 + handshake_message_size) (length payload)) (violation "CIRCUIT_CREATE too short")
  let size = name_length payload
  require (not (size == 0) && length payload == 1 + size + handshake_message_size)
      (violation "CIRCUIT_CREATE length does not match its routing prefix")
  elim (text_decode (take size (drop 1 payload))) [
    | none ↦ err (violation "CIRCUIT_CREATE routing name is not UTF-8")
    | some name ↦ do
      require (is_canonical_name name) (violation "CIRCUIT_CREATE routing name is not canonical")
      ok (record { name = name; message1 = drop (1 + size) payload })
  ]

unfoldable pub decode_circuit_created : List ℕ → Result FrameDecodeError (List ℕ)
decode_circuit_created payload = do
  require (length payload == handshake_message_size) (violation "CIRCUIT_CREATED wrong size")
  ok payload

unfoldable pub encode_destroy : Number → Result RangeError (List ℕ)
encode_destroy (whole reason) = do
  require (leb reason 0xffff) (range_error "destroy reason out of range")
  ok (u16_bytes reason)
encode_destroy not_whole = err (range_error "destroy reason out of range")

unfoldable pub decode_destroy : List ℕ → Result FrameDecodeError ℕ
decode_destroy (hi ∷ lo ∷ []) = ok (u16_of hi lo)
decode_destroy payload = err (violation "CIRCUIT_DESTROY payload must be 2 bytes")

pub encode_circuit_create-eq-ok :
    (name message1 d : List ℕ)
    → encode_circuit_create name message1 ≡ ok d
    → (is_canonical_name name ≡ true)
      × (length message1 ≡ 48)
      × (d ≡ (length name % 256) ∷ (name ++ message1))
unfolding encode_circuit_create
encode_circuit_create-eq-ok name message1 d e = (ground arith, ground arith, ground arith)

-- A routing prefix of some bytes that are decoded to a canonical name, with message 1 behind it.
decode_prefixed :
    (bytes name message1 : List ℕ)
    → 1 ≤ length bytes
    → length bytes < 256
    → length message1 ≡ 48
    → text_decode bytes ≡ some name
    → is_canonical_name name ≡ true
    → decode_circuit_create (length bytes ∷ (bytes ++ message1))
      ≡ ok (record { name = name; message1 = message1 })
unfolding decode_circuit_create
decode_prefixed bytes name message1 l u s e c = ground (
  arith,
  length-append bytes message1,
  take-length_append (length bytes) bytes message1,
  drop-length_append (length bytes) bytes message1,
)

-- What `encode_circuit_create` writes is decoded to the name and the message that it was given.
pub decode-encode_circuit_create :
    (name message1 d : List ℕ)
    → encode_circuit_create name message1 ≡ ok d
    → decode_circuit_create d ≡ ok (record { name = name; message1 = message1 })
decode-encode_circuit_create name message1 d e =
    let (c, s, same) = encode_circuit_create-eq-ok name message1 d e in
    let (l, u, ascii) = is_canonical_name_lem name c in
    let small : length name % 256 ≡ length name = omega arith in
    rw (same, small)
      (decode_prefixed name name message1 l (omega arith) s (text_decode_ascii name ascii) c)

-- A name behind the byte order mark of UTF-8.
abbrev pub marked : List ℕ → List ℕ
marked name = 0xef ∷ 0xbb ∷ 0xbf ∷ name

-- The decoder drops a byte order mark, so it accepts three bytes that no encoder writes in front of
-- a canonical name that leaves room for them, and returns the bare name.
pub decode_circuit_create-mark :
    (name message1 : List ℕ)
    → is_canonical_name name ≡ true
    → length name ≤ 252
    → length message1 ≡ 48
    → decode_circuit_create (length (marked name) ∷ (marked name ++ message1))
      ≡ ok (record { name = name; message1 = message1 })
decode_circuit_create-mark name message1 c u s =
    let (l, _, ascii) = is_canonical_name_lem name c in
    decode_prefixed (marked name) name message1 (omega arith) (omega arith) s
      (text_decode_mark name ascii) c

-- A reason is decoded from what was encoded, and two bytes are what is encoded for their reason.
pub decode-encode_destroy :
    (d : List ℕ) (reason : ℕ)
    → All IsByte d
    → ((encode_destroy (whole reason) ≡ ok d) → (decode_destroy d ≡ ok reason))
      × ((decode_destroy d ≡ ok reason) → (encode_destroy (whole reason) ≡ ok d))
unfolding encode_destroy decode_destroy u16_bytes u16_of
decode-encode_destroy [] reason h = (λ e. ground arith, λ e. ground arith)
decode-encode_destroy (a ∷ []) reason h = (λ e. ground arith, λ e. ground arith)
decode-encode_destroy (a ∷ b ∷ []) reason h = (λ e. ground arith, λ e. ground arith)
decode-encode_destroy (a ∷ b ∷ c ∷ d) reason h = (λ e. ground arith, λ e. ground arith)
