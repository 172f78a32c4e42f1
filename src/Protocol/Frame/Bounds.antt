-- ===== src/Protocol/Frame/Bounds.antt =====
-- What the guards of the codec leave: flags, the fields of a decoded frame, and the error codes.
use tnp.Prelude.{
  ℕ, zero, suc, ◌+◌, ◌/◌, ◌*◌, ◌%◌, ◌^◌, ◌≤◌, ◌<◌, ◌≡◌, ◌⊎◌, inl, inr, ◌↔◌, ◌≢◌, true, List, [],
  ◌∷◌, arith, length, All, ok, err, get_or, drop, length-take, length-drop,
}
use tnp.Prelude.Bytes.{IsByte}
use tnp.Prelude.Bits.{bit_and_all, bit_and_not_three}
use tnp.Protocol.FrameType.{is_frame_type, allowed_flags, allowed_flags-cases}
use tnp.Protocol.ErrorCode.{protocol_violation, unsupported_version}
use tnp.Protocol.Frame.{
  Frame, FrameDecodeError, stray_flags, read_frame, declared_length, decode_frame, byte,
}

stray_flags-none : (f : ℕ) → stray_flags f 0 ≡ f % 2 ^ 32
unfolding stray_flags
stray_flags-none f = bit_and_all (f % 2 ^ 32) (omega arith)

stray_flags-close : (f : ℕ) → stray_flags f 3 ≡ f % 2 ^ 32 / 4 * 4
unfolding stray_flags
stray_flags-close f = bit_and_not_three (f % 2 ^ 32) (omega arith)

-- The flags test looks at 32 bits, and lets only those of the mask through.
pub stray_flags_iff :
    (f t : ℕ) → (stray_flags f (allowed_flags t) ≡ 0) ↔ (f % 2 ^ 32 ≤ allowed_flags t)
stray_flags_iff f t = elim (allowed_flags-cases t) [
  | inl z ↦ rw z (omega (arith, stray_flags-none f))
  | inr z ↦ rw z (omega (arith, stray_flags-close f))
]

-- The ranges of a frame that a peer accepts.
pub record IsFrame (f : Frame) : Type 0 where
  pub first_version : f.version ≡ 1
  pub known : is_frame_type f.type ≡ true
  pub in_mask : f.flags ≤ allowed_flags f.type
  pub circuit_range : f.circuit_id < 2 ^ 64
  pub stream_range : f.stream_id < 2 ^ 32
  pub payload_range : length f.payload ≤ 65535

-- The checks that a decoded frame has passed.
pub decode_frame-eq-ok :
    (d : List ℕ) (f : Frame)
    → decode_frame d ≡ ok f
    → (f ≡ read_frame d)
      × (20 ≤ length d)
      × ((read_frame d).version ≡ 1)
      × (is_frame_type (read_frame d).type ≡ true)
      × (stray_flags (read_frame d).flags (allowed_flags (read_frame d).type) ≡ 0)
      × (declared_length d ≤ 65535)
      × (length d ≡ 20 + declared_length d)
unfolding decode_frame
decode_frame-eq-ok d f e = ground arith

byte-lt : (i : ℕ) (d : List ℕ) → All IsByte d → get_or d i 0 < 256
byte-lt i [] h = omega arith
byte-lt zero (b ∷ d) h = h.0
byte-lt (suc i) (b ∷ d) h = byte-lt i d h.1

abbrev ByteAt : List ℕ → ℕ → Type 0
ByteAt d i = get_or d i 0 < 256

read_frame_ranges :
    (d : List ℕ)
    → All IsByte d
    → ((read_frame d).flags < 2 ^ 16)
      × ((read_frame d).circuit_id < 2 ^ 64)
      × ((read_frame d).stream_id < 2 ^ 32)
unfolding read_frame
read_frame_ranges d h =
    let at : (i : ℕ) → ByteAt d i = λ i. byte-lt i d h in
    (
      omega (arith, at 2, at 3),
      omega (arith, at 4, at 5, at 6, at 7, at 8, at 9, at 10, at 11),
      omega (arith, at 12, at 13, at 14, at 15),
    )

length-read_frame :
    (d : List ℕ)
    → length d ≡ 20 + declared_length d
    → length (read_frame d).payload ≡ declared_length d
unfolding read_frame
length-read_frame d h = omega (arith, length-take (declared_length d) (drop 20 d), length-drop 20 d)

-- Every frame that is decoded from bytes is in range, and its payload is all that follows the
-- header: nothing is read past the data, and no byte of it is left over.
pub decode_frame-IsFrame :
    (d : List ℕ) (f : Frame)
    → All IsByte d
    → decode_frame d ≡ ok f
    → IsFrame f × (length d ≡ 20 + length f.payload)
decode_frame-IsFrame d f bytes e =
    let (same, long, version, known, flags, most, exact) = decode_frame-eq-ok d f e in
    let (f16, c64, s32) = read_frame_ranges d bytes in
    let size = length-read_frame d exact in
    rw same (
      record {
        first_version = version;
        known = known;
        in_mask = omega (arith, (stray_flags_iff _ _).0 flags);
        circuit_range = c64;
        stream_range = s32;
        payload_range = omega arith;
      },
      omega arith,
    )

-- A decoding error tells the peer UNSUPPORTED_VERSION exactly when the header is there and its
-- first byte is not this version's, and PROTOCOL_VIOLATION in every other case.
pub decode_frame-code :
    (d : List ℕ) (x : FrameDecodeError)
    → decode_frame d ≡ err x
    → ((x.code ≡ unsupported_version) × (20 ≤ length d) × (byte d 0 ≢ 1))
      ⊎ ((x.code ≡ protocol_violation) × ((length d < 20) ⊎ (byte d 0 ≡ 1)))
unfolding decode_frame read_frame
decode_frame-code d x e = ground arith
