-- ===== src/Protocol/Overlay/Stream.antt =====
-- packages/protocol/src/overlay.ts: stream messages, the plaintext of every sealed record.
use tnp.Prelude.{
  Bool-cases, inl, inr, ==→eq, ℕ, ◌≡◌, Bool, false, not, ◌&&◌, leb, ◌==◌, if◌then◌else◌, List, [],
  ◌∷◌, arith, length, All, Result, ok, err, ◌>>◌, require, Number, whole, not_whole, value,
  RangeError, ◌-◌, ◌≤◌,
}
use tnp.Prelude.Bytes.{u16_bytes, u32_bytes, u16_of, u32_of, IsByte}
use tnp.Protocol.Constants.{max_sealed_plaintext}
use tnp.Protocol.Frame.{FrameDecodeError, range_error}
use tnp.Protocol.Overlay.Name.{violation}

-- `StreamMessageType`
abbrev pub type_open : ℕ
type_open = 0x01

abbrev pub type_opened : ℕ
type_opened = 0x02

abbrev pub type_data : ℕ
type_data = 0x03

abbrev pub type_reset : ℕ
type_reset = 0x04

abbrev pub type_window : ℕ
type_window = 0x05

abbrev pub type_fin : ℕ
type_fin = 0x06

abbrev pub max_stream_data : ℕ
max_stream_data = max_sealed_plaintext - 1

-- The source's `data` is `chunk`, since that word is taken.
pub data StreamMessage : Type 0 where
  open_port : Number → StreamMessage
  opened : StreamMessage
  chunk : List ℕ → StreamMessage
  reset : Number → StreamMessage
  window : Number → StreamMessage
  fin : StreamMessage

-- `Number.isInteger(n) && n >= least && n <= most`
unfoldable pub is_within : Number → ℕ → ℕ → Bool
is_within (whole n) least most = leb least n && leb n most
is_within not_whole least most = false

unfoldable pub encode_stream_message : StreamMessage → Result RangeError (List ℕ)
encode_stream_message (open_port port) = do
  require (is_within port 1 0xffff) (range_error "port out of range")
  ok (type_open ∷ u16_bytes (value port))
encode_stream_message opened = ok (type_opened ∷ [])
encode_stream_message (chunk bytes) = do
  require (not (length bytes == 0) && leb (length bytes) max_stream_data)
      (range_error "data chunk empty or too large")
  ok (type_data ∷ bytes)
encode_stream_message (reset code) = do
  require (is_within code 0 0xffff) (range_error "reset code out of range")
  ok (type_reset ∷ u16_bytes (value code))
encode_stream_message (window credit) = do
  require (is_within credit 1 0xffff_ffff) (range_error "window credit out of range")
  ok (type_window ∷ u32_bytes (value credit))
encode_stream_message fin = ok (type_fin ∷ [])

-- The cases of `decodeStreamMessage`, each with what follows the type byte.
unfoldable pub decode_open : List ℕ → Result FrameDecodeError StreamMessage
decode_open (a ∷ b ∷ []) = do
  let port = u16_of a b
  require (not (port == 0)) (violation "OPEN port 0")
  ok (open_port (whole port))
decode_open body = err (violation "OPEN wrong size")

unfoldable pub decode_data : List ℕ → Result FrameDecodeError StreamMessage
decode_data [] = err (violation "empty DATA")
decode_data (b ∷ bs) = ok (chunk (b ∷ bs))

unfoldable pub decode_reset : List ℕ → Result FrameDecodeError StreamMessage
decode_reset (a ∷ b ∷ []) = ok (reset (whole (u16_of a b)))
decode_reset body = err (violation "RESET wrong size")

unfoldable pub decode_window : List ℕ → Result FrameDecodeError StreamMessage
decode_window (a ∷ b ∷ c ∷ d ∷ []) = do
  let credit = u32_of a b c d
  require (not (credit == 0)) (violation "WINDOW of zero")
  ok (window (whole credit))
decode_window body = err (violation "WINDOW wrong size")

unfoldable pub decode_stream_message : List ℕ → Result FrameDecodeError StreamMessage
decode_stream_message [] = err (violation "empty stream message")
decode_stream_message (type ∷ body) =
    if type == type_open
    then decode_open body
    else if type == type_opened
    then require (length body == 0) (violation "OPENED wrong size") >> ok opened
    else if type == type_data
    then decode_data body
    else if type == type_reset
    then decode_reset body
    else if type == type_window
    then decode_window body
    else if type == type_fin
    then require (length body == 0) (violation "FIN wrong size") >> ok fin
    else err (violation "unknown stream message type")

-- Every message that is encoded is decoded to itself.
pub decode-encode_stream_message :
    (message : StreamMessage) (d : List ℕ)
    → encode_stream_message message ≡ ok d
    → decode_stream_message d ≡ ok message
unfolding encode_stream_message decode_stream_message decode_open decode_data decode_reset
    decode_window is_within u16_bytes u32_bytes u16_of u32_of
decode-encode_stream_message (open_port (whole n)) d e = ground arith
decode-encode_stream_message (open_port not_whole) d e = ground arith
decode-encode_stream_message opened d e = ground arith
decode-encode_stream_message (chunk []) d e = ground arith
decode-encode_stream_message (chunk (b ∷ bs)) d e = ground arith
decode-encode_stream_message (reset (whole n)) d e = ground arith
decode-encode_stream_message (reset not_whole) d e = ground arith
decode-encode_stream_message (window (whole n)) d e = ground arith
decode-encode_stream_message (window not_whole) d e = ground arith
decode-encode_stream_message fin d e = ground arith

-- What a decoder of one case accepts is what is encoded.
abbrev IsExact : ℕ → (List ℕ → Result FrameDecodeError StreamMessage) → Type 0
IsExact type decode =
    (body : List ℕ) (message : StreamMessage)
    → All IsByte body
    → decode body ≡ ok message
    → encode_stream_message message ≡ ok (type ∷ body)

decode_open-IsExact : IsExact type_open decode_open
unfolding encode_stream_message decode_open is_within u16_bytes u16_of
decode_open-IsExact (a ∷ b ∷ []) (open_port (whole n)) h e = ground arith
decode_open-IsExact body message h e = ground arith

decode_reset-IsExact : IsExact type_reset decode_reset
unfolding encode_stream_message decode_reset is_within u16_bytes u16_of
decode_reset-IsExact (a ∷ b ∷ []) (reset (whole n)) h e = ground arith
decode_reset-IsExact body message h e = ground arith

decode_window-IsExact : IsExact type_window decode_window
unfolding encode_stream_message decode_window is_within u32_bytes u16_bytes u32_of u16_of
decode_window-IsExact (a ∷ b ∷ c ∷ d ∷ []) (window (whole n)) h e = ground arith
decode_window-IsExact body message h e = ground arith

decode_data_exact :
    (body : List ℕ) (message : StreamMessage)
    → length body ≤ max_stream_data
    → decode_data body ≡ ok message
    → encode_stream_message message ≡ ok (type_data ∷ body)
unfolding encode_stream_message decode_data
decode_data_exact [] message l e = ground arith
decode_data_exact (b ∷ bs) (chunk cs) l e = ground arith
decode_data_exact (b ∷ bs) message l e = ground arith

decode_opened-IsExact :
    IsExact type_opened
      (λ body. require (length body == 0) (violation "OPENED wrong size") >> ok opened)
unfolding encode_stream_message
decode_opened-IsExact [] message h e = ground arith
decode_opened-IsExact (b ∷ bs) message h e = ground arith

decode_fin-IsExact :
    IsExact type_fin (λ body. require (length body == 0) (violation "FIN wrong size") >> ok fin)
unfolding encode_stream_message
decode_fin-IsExact [] message h e = ground arith
decode_fin-IsExact (b ∷ bs) message h e = ground arith

-- A plaintext of a record's size that is decoded is exactly what the decoded message is encoded to,
-- so no message has two encodings.
pub encode-decode_stream_message :
    (d : List ℕ) (message : StreamMessage)
    → All IsByte d
    → length d ≤ max_sealed_plaintext
    → decode_stream_message d ≡ ok message
    → encode_stream_message message ≡ ok d
unfolding decode_stream_message
encode-decode_stream_message [] message h l e = ground arith
encode-decode_stream_message (type ∷ body) message h l e = elim (Bool-cases (type == type_open)) [
  | inl t ↦ rw (==→eq type _ t) (decode_open-IsExact body message h.1 (rw t at e))
  | inr t1 ↦ elim (Bool-cases (type == type_opened)) [
    | inl t ↦ rw (==→eq type _ t) (decode_opened-IsExact body message h.1 (rw (t1, t) at e))
    | inr t2 ↦ elim (Bool-cases (type == type_data)) [
      | inl t ↦
          rw (==→eq type _ t) (decode_data_exact body message (omega arith) (rw (t1, t2, t) at e))
      | inr t3 ↦ elim (Bool-cases (type == type_reset)) [
        | inl t ↦
            rw (==→eq type _ t) (decode_reset-IsExact body message h.1 (rw (t1, t2, t3, t) at e))
        | inr t4 ↦ elim (Bool-cases (type == type_window)) [
          | inl t ↦
              rw (==→eq type _ t)
                (decode_window-IsExact body message h.1 (rw (t1, t2, t3, t4, t) at e))
          | inr t5 ↦ elim (Bool-cases (type == type_fin)) [
            | inl t ↦
                rw (==→eq type _ t)
                  (decode_fin-IsExact body message h.1 (rw (t1, t2, t3, t4, t5, t) at e))
            | inr t6 ↦ cc (rw (t1, t2, t3, t4, t5, t6) at e)
          ]
        ]
      ]
    ]
  ]
]
