-- ===== src/Protocol/Frame/RoundTrip.antt =====
-- What `encode_frame` writes, `decode_frame` reads, and the other way round.
use tnp.Prelude.{
  ℕ, ◌+◌, ◌*◌, ◌%◌, ◌^◌, ◌≤◌, ◌<◌, ◌≡◌, refl, ap, ◌∙◌, true, List, [], ◌∷◌, ◌++◌, arith, length,
  All, ok, take_all, length-append, value, default_to, whole, some,
}
use tnp.Prelude.Bytes.{IsByte}
use tnp.Protocol.FrameType.{is_frame_type, allowed_flags, is_frame_type-lt}
use tnp.Protocol.Frame.Bounds.{stray_flags_iff, decode_frame-eq-ok, decode_frame-IsFrame, IsFrame}
use tnp.Protocol.Frame.{
  Frame, stray_flags, decode_frame, header, read_frame, declared_length, EncodeOptions,
  encode_frame, check_flags,
}

length-header : (t f c s n : ℕ) → length (header t f c s n) ≡ 20
unfolding header
length-header t f c s n = refl

declared_length-header :
    (t f c s : ℕ) (p : List ℕ)
    → length p ≤ 65535
    → declared_length (header t f c s (length p) ++ p) ≡ length p
unfolding declared_length header
declared_length-header t f c s p h = omega arith

read_frame-header :
    (t f c s : ℕ) (p : List ℕ)
    → t < 256
    → length p ≤ 65535
    → c < 2 ^ 64
    → s < 2 ^ 32
    → read_frame (header t f c s (length p) ++ p) ≡ record {
      version = 1;
      type = t;
      flags = f % 65536;
      circuit_id = c;
      stream_id = s;
      payload = p;
    }
unfolding read_frame header
read_frame-header t f c s p ht hp hc hs = ground (arith, take_all (length p) p)

-- The frame that the options describe: absent ones at their defaults, flags as the field keeps them.
unfoldable pub frame_of : EncodeOptions → Frame
frame_of options = record {
  version = 1;
  type = options.type;
  flags = value (default_to (whole 0) options.flags) % 2 ^ 16;
  circuit_id = value (default_to (whole 0) options.circuit_id);
  stream_id = value (default_to (whole 0) options.stream_id);
  payload = default_to [] options.payload;
}

decode_frame-header :
    (t f c s : ℕ) (p : List ℕ)
    → is_frame_type t ≡ true
    → length p ≤ 65535
    → stray_flags (f % 65536) (allowed_flags t) ≡ 0
    → c < 2 ^ 64
    → s < 2 ^ 32
    → decode_frame (header t f c s (length p) ++ p)
      ≡ ok (record {
        version = 1;
        type = t;
        flags = f % 65536;
        circuit_id = c;
        stream_id = s;
        payload = p;
      })
unfolding decode_frame
decode_frame-header t f c s p ht hp hf hc hs = ground (
  arith,
  read_frame-header t f c s p,
  is_frame_type-lt t ht,
  declared_length-header t f c s p,
  length-append (header t f c s (length p)) p,
  length-header t f c s (length p),
)

-- The options with their defaults.
abbrev pub flags_of : EncodeOptions → ℕ
flags_of options = value (default_to (whole 0) options.flags)

abbrev pub circuit_id_of : EncodeOptions → ℕ
circuit_id_of options = value (default_to (whole 0) options.circuit_id)

abbrev pub stream_id_of : EncodeOptions → ℕ
stream_id_of options = value (default_to (whole 0) options.stream_id)

abbrev pub payload_of : EncodeOptions → List ℕ
payload_of options = default_to [] options.payload

abbrev pub encoding : EncodeOptions → List ℕ
encoding options =
    header options.type (flags_of options) (circuit_id_of options) (stream_id_of options)
      (length (payload_of options))
    ++ payload_of options

-- The guards that accepted options have passed, and what is written.
pub record IsAccepted (options : EncodeOptions) : Type 0 where
  pub known : is_frame_type options.type ≡ true
  pub payload_range : length (payload_of options) ≤ 65535
  pub mask : stray_flags (flags_of options) (allowed_flags options.type) ≡ 0
  pub circuit_range : circuit_id_of options < 2 ^ 64
  pub stream_range : stream_id_of options < 2 ^ 32

pub encode_frame-eq-ok :
    (options : EncodeOptions) (d : List ℕ)
    → encode_frame options ≡ ok d
    → IsAccepted options × (encoding options ≡ d)
unfolding encode_frame
encode_frame-eq-ok options d e = ground arith

-- What `encode_frame` accepts is decoded to the frame that the options describe.
pub decode-encode_frame :
    (options : EncodeOptions) (d : List ℕ)
    → encode_frame options ≡ ok d
    → decode_frame d ≡ ok (frame_of options)
unfolding frame_of
decode-encode_frame options d e =
    let (a, same) = encode_frame-eq-ok options d e in
    let low : flags_of options % 2 ^ 32 ≤ allowed_flags options.type =
      (stray_flags_iff _ _).0 a.mask in
    rw (← same) (
      decode_frame-header _ _ _ _ _ a.known a.payload_range ((stray_flags_iff _ _).1 (omega arith))
        a.circuit_range a.stream_range)

-- The options that describe a frame in full.
unfoldable pub options_of : Frame → EncodeOptions
options_of f = record {
  type = f.type;
  circuit_id = some (whole f.circuit_id);
  stream_id = some (whole f.stream_id);
  flags = some (whole f.flags);
  payload = some f.payload;
}

header-read_frame :
    (d : List ℕ)
    → All IsByte d
    → (read_frame d).version ≡ 1
    → length d ≡ 20 + declared_length d
    → encoding (options_of (read_frame d)) ≡ d
unfolding options_of read_frame header
header-read_frame
      (b0 ∷ b1 ∷ b2 ∷ b3 ∷ b4 ∷ b5 ∷ b6 ∷ b7 ∷ b8 ∷ b9 ∷ b10 ∷ b11 ∷ b12 ∷ b13 ∷ b14 ∷ b15 ∷ b16
        ∷ b17 ∷ b18 ∷ b19 ∷ p)
      h v e =
    ground (arith, take_all (length p) p)
header-read_frame d h v e = absurd (omega arith)

encode_frame-options_of :
    (f : Frame)
    → IsFrame f
    → stray_flags f.flags (allowed_flags f.type) ≡ 0
    → encode_frame (options_of f) ≡ ok (encoding (options_of f))
unfolding encode_frame options_of
encode_frame-options_of f v m = ground arith

-- Decoding is strict: bytes that are decoded are exactly what `encode_frame` writes for the frame,
-- so no two byte strings are decoded to the same frame.
pub encode-decode_frame :
    (d : List ℕ) (f : Frame)
    → All IsByte d
    → decode_frame d ≡ ok f
    → encode_frame (options_of f) ≡ ok d
encode-decode_frame d f bytes e =
    let (same, _, version, _, flags, _, exact) = decode_frame-eq-ok d f e in
    let (v, _) = decode_frame-IsFrame d f bytes e in
    encode_frame-options_of f v (rw same flags)
    ∙ rw same (ap ok (header-read_frame d bytes version exact))

-- The flags of `options` with `k` added above bit 31.
unfoldable pub with_high_flags : ℕ → EncodeOptions → EncodeOptions
with_high_flags k options = record options { flags = some (whole (flags_of options + k * 2 ^ 32)) }

check_flags-high : (k f a : ℕ) → check_flags (whole (f + k * 2 ^ 32)) a ≡ check_flags (whole f) a
unfolding check_flags stray_flags
check_flags-high k f a = let same : (f + k * 2 ^ 32) % 2 ^ 32 ≡ f % 2 ^ 32 = omega arith in rw same

header-high : (k t f c s n : ℕ) → header t (f + k * 2 ^ 32) c s n ≡ header t f c s n
unfolding header
header-high k t f c s n = ground arith

-- Flag bits from bit 32 on are dropped in silence: where the flags are a natural number, a frame
-- with such bits is refused or written exactly as the frame without them.
pub encode_frame-with_high_flags :
    (k f : ℕ) (options : EncodeOptions)
    → options.flags ≡ some (whole f)
    → encode_frame (with_high_flags k options) ≡ encode_frame options
unfolding encode_frame with_high_flags
encode_frame-with_high_flags k f options e = ground (
  arith,
  check_flags-high k f (allowed_flags options.type),
  header-high k options.type f (circuit_id_of options) (stream_id_of options)
      (length (payload_of options)),
)
