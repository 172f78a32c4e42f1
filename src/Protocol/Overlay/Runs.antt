-- ===== src/Protocol/Overlay/Runs.antt =====
-- Concrete messages, and the theorems at concrete inputs.
use tnp.Prelude.{ℕ, ◌≡◌, refl, true, false, List, [], ◌∷◌, ◌++◌, arith, replicate, ok, whole}
use tnp.Prelude.Bytes.{u16_bytes, u32_bytes, u16_of, u32_of}
use tnp.Protocol.Overlay.Name.{is_canonical_name, is_label, split, split_at}
use tnp.Protocol.Overlay.Circuit.{
  encode_circuit_create, decode_circuit_create, decode-encode_circuit_create,
  decode_circuit_create-mark, marked, encode_destroy, decode_destroy, decode-encode_destroy,
}
use tnp.Protocol.Overlay.Stream.{
  StreamMessage, window, encode_stream_message, decode_stream_message, decode_window, is_within,
  decode-encode_stream_message, encode-decode_stream_message,
}

-- "a-1.ox"
abbrev name : List ℕ
name = 0x61 ∷ 0x2d ∷ 0x31 ∷ 0x2e ∷ 0x6f ∷ 0x78 ∷ []

abbrev message1 : List ℕ
message1 = replicate 48 7

abbrev prefixed : List ℕ
prefixed = 6 ∷ (name ++ message1)

name_canonical : is_canonical_name name ≡ true
unfolding is_canonical_name is_label split split_at
name_canonical = refl

-- "a-.ox" and "a..ox"
names_refused :
    (is_canonical_name (0x61 ∷ 0x2d ∷ 0x2e ∷ 0x6f ∷ 0x78 ∷ []) ≡ false)
    × (is_canonical_name (0x61 ∷ 0x2e ∷ 0x2e ∷ 0x6f ∷ 0x78 ∷ []) ≡ false)
unfolding is_canonical_name is_label split split_at
names_refused = (refl, refl)

encode_name : encode_circuit_create name message1 ≡ ok prefixed
unfolding encode_circuit_create is_canonical_name is_label split split_at
encode_name = refl

decode-encode_circuit_create_example :
    decode_circuit_create prefixed ≡ ok (record { name = name; message1 = message1 })
decode-encode_circuit_create_example =
    decode-encode_circuit_create name message1 prefixed encode_name

decode_circuit_create-mark_example :
    decode_circuit_create (9 ∷ (marked name ++ message1))
    ≡ ok (record { name = name; message1 = message1 })
decode_circuit_create-mark_example =
    decode_circuit_create-mark name message1 name_canonical (omega arith) refl

decode-encode_destroy_example :
    ((encode_destroy (whole 0x0102) ≡ ok (1 ∷ 2 ∷ [])) → (decode_destroy (1 ∷ 2 ∷ []) ≡ ok 0x0102))
    × ((decode_destroy (1 ∷ 2 ∷ []) ≡ ok 0x0102)
        → (encode_destroy (whole 0x0102) ≡ ok (1 ∷ 2 ∷ [])))
decode-encode_destroy_example = decode-encode_destroy (1 ∷ 2 ∷ []) 0x0102 (omega arith)

abbrev credit_message : StreamMessage
credit_message = window (whole 0x0102_0304)

abbrev credit_bytes : List ℕ
credit_bytes = 5 ∷ 1 ∷ 2 ∷ 3 ∷ 4 ∷ []

encode_credit : encode_stream_message credit_message ≡ ok credit_bytes
unfolding encode_stream_message is_within u32_bytes u16_bytes
encode_credit = refl

decode_credit : decode_stream_message credit_bytes ≡ ok credit_message
unfolding decode_stream_message decode_window u32_of u16_of
decode_credit = refl

decode-encode_stream_message_example : decode_stream_message credit_bytes ≡ ok credit_message
decode-encode_stream_message_example =
    decode-encode_stream_message credit_message credit_bytes encode_credit

encode-decode_stream_message_example : encode_stream_message credit_message ≡ ok credit_bytes
encode-decode_stream_message_example =
    encode-decode_stream_message credit_bytes credit_message (omega arith) (omega arith)
      decode_credit

abbrev key : List ℕ
key = replicate 32 1

abbrev signature : List ℕ
signature = replicate 64 2
