-- ===== src/Protocol/Overlay/Hello.antt =====
-- packages/protocol/src/overlay.ts: the relay's identity proof and the challenge of a service node.
use tnp.Prelude.{
  ℕ, ◌≡◌, ◌&&◌, ◌==◌, List, ◌++◌, arith, length, take, drop, Result, ok, ◌>>◌, require, RangeError,
  take-length_append, drop-length_append, length-append, take-append-drop, length-take, length-drop,
}
use tnp.Protocol.Frame.{FrameDecodeError, range_error}
use tnp.Protocol.Overlay.Name.{violation}

abbrev pub relay_hello_nonce_size : ℕ
relay_hello_nonce_size = 32

abbrev pub relay_hello_ack_size : ℕ
relay_hello_ack_size = 96

abbrev pub service_challenge_size : ℕ
service_challenge_size = 32

unfoldable pub encode_relay_hello : List ℕ → Result RangeError (List ℕ)
encode_relay_hello nonce = do
  require (length nonce == relay_hello_nonce_size) (range_error "HELLO nonce must be 32 bytes")
  ok nonce

unfoldable pub decode_relay_hello : List ℕ → Result FrameDecodeError (List ℕ)
decode_relay_hello payload = do
  require (length payload == relay_hello_nonce_size) (violation "HELLO nonce wrong size")
  ok payload

unfoldable pub encode_relay_hello_ack : (relay_key signature : List ℕ) → Result RangeError (List ℕ)
encode_relay_hello_ack relay_key signature = do
  require (length relay_key == 32 && length signature == 64)
      (range_error "HELLO_ACK needs a 32-byte key and a 64-byte signature")
  ok (relay_key ++ signature)

pub record RelayHelloAck : Type 0 where
  pub relay_key : List ℕ
  pub signature : List ℕ

unfoldable pub decode_relay_hello_ack : List ℕ → Result FrameDecodeError RelayHelloAck
decode_relay_hello_ack payload = do
  require (length payload == relay_hello_ack_size) (violation "HELLO_ACK wrong size")
  ok (record { relay_key = take 32 payload; signature = drop 32 payload })

unfoldable pub decode_service_hello : List ℕ → Result FrameDecodeError (List ℕ)
decode_service_hello payload = do
  require (length payload == service_challenge_size) (violation "HELLO challenge wrong size")
  ok payload

-- A key and a signature are decoded from what was encoded, and a payload that is decoded is what its
-- key and its signature are encoded to.
pub decode-encode_relay_hello_ack :
    (d key signature : List ℕ)
    → ((encode_relay_hello_ack key signature ≡ ok d)
        → (decode_relay_hello_ack d ≡ ok (record { relay_key = key; signature = signature })))
      × ((decode_relay_hello_ack d ≡ ok (record { relay_key = key; signature = signature }))
          → (encode_relay_hello_ack key signature ≡ ok d))
unfolding encode_relay_hello_ack decode_relay_hello_ack
decode-encode_relay_hello_ack d key signature = (
  λ e. ground (
    arith,
    length-append key signature,
    take-length_append 32 key signature,
    drop-length_append 32 key signature,
  ),
  λ e. ground (arith, take-append-drop 32 d, length-take 32 d, length-drop 32 d),
)
