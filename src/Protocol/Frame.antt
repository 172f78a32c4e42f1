-- ===== src/Protocol/Frame.antt =====
-- packages/protocol/src/frame.ts: the frame codec. A `Uint8Array` is a list of bytes.

pub mod Bounds
pub mod RoundTrip
pub mod Errors
mod Runs
use Prim.Native.Nat.{bit_and}
use Prim.Native.String.{String}
use tnp.Prelude.{
  ℕ, ◌+◌, ◌-◌, ◌%◌, ◌^◌, Bool, true, false, not, Option, none, some, List, [], ◌∷◌, ◌++◌, ltb, leb,
  ◌==◌, if◌then◌else◌, length, get_or, take, drop, Result, ok, err, ◌>>=◌, ◌>>◌, require, Number,
  whole, not_whole, value, default_to, RangeError,
}
use tnp.Prelude.Bytes.{u16_bytes, u32_bytes, u64_bytes, u16_of, u32_of, u64_of}
use tnp.Protocol.ErrorCode.{protocol_violation, unsupported_version}
use tnp.Protocol.FrameType.{is_frame_type, allowed_flags}
use tnp.Protocol.Constants.{protocol_version, header_size, max_frame_payload}

pub record Frame : Type 0 where
  pub version : ℕ
  pub type : ℕ
  pub flags : ℕ
  pub circuit_id : ℕ
  pub stream_id : ℕ
  pub payload : List ℕ

-- The values that a message interpolates are left out.
pub record FrameDecodeError : Type 0 where
  pub message : String
  pub code : ℕ

pub record EncodeOptions : Type 0 where
  pub type : ℕ
  pub circuit_id : Option Number
  pub stream_id : Option Number
  pub flags : Option Number
  pub payload : Option (List ℕ)

abbrev pub max_uint64 : ℕ
max_uint64 = 0xffff_ffff_ffff_ffff

abbrev pub range_error : String → RangeError
range_error m = record { message = m }

-- `flags & ~allowed`: both operands are taken modulo 2^32.
unfoldable pub stray_flags : ℕ → ℕ → ℕ
stray_flags flags allowed = bit_and (flags % 2 ^ 32) (0xffff_ffff - allowed)

unfoldable pub check_flags : Number → ℕ → Result RangeError (Unit {0})
check_flags (whole f) allowed =
    require (stray_flags f allowed == 0) (range_error "Unknown flag bits set for this frame type")
check_flags not_whole allowed = err (range_error "Unknown flag bits set for this frame type")

unfoldable pub check_range : Number → ℕ → String → Result RangeError (Unit {0})
check_range (whole n) most message = require (leb n most) (range_error message)
check_range not_whole most message = err (range_error message)

-- The header; a write into the buffer reduces the value to the field's width.
unfoldable pub header : (type flags circuit_id stream_id size : ℕ) → List ℕ
unfolding u16_bytes u32_bytes u64_bytes
header type flags circuit_id stream_id size =
    protocol_version
    ∷ type % 256
    ∷ (u16_bytes flags ++ (u64_bytes circuit_id ++ (u32_bytes stream_id ++ u32_bytes size)))

unfoldable pub encode_frame : EncodeOptions → Result RangeError (List ℕ)
unfolding check_flags check_range
encode_frame options = do
  let payload = default_to [] options.payload
  let flags = default_to (whole 0) options.flags
  let circuit_id = default_to (whole 0) options.circuit_id
  let stream_id = default_to (whole 0) options.stream_id
  require (is_frame_type options.type) (range_error "Unknown frame type")
  require (leb (length payload) max_frame_payload) (range_error "Payload exceeds MAX_FRAME_PAYLOAD")
  check_flags flags (allowed_flags options.type)
  check_range circuit_id max_uint64 "circuitId out of range"
  check_range stream_id 0xffff_ffff "streamId out of range"
  ok (
      header options.type (value flags) (value circuit_id) (value stream_id) (length payload)
      ++ payload)

abbrev pub decode_error_of : String → ℕ → FrameDecodeError
decode_error_of m c = record { message = m; code = c }

abbrev byte : List ℕ → ℕ → ℕ
byte d i = get_or d i 0

-- `view.getUint32(16)`
unfoldable pub declared_length : List ℕ → ℕ
unfolding u32_of
declared_length d = u32_of (byte d 16) (byte d 17) (byte d 18) (byte d 19)

-- The fields of the header, as the `DataView` reads them, and `subarray(20, 20 + length)`.
unfoldable pub read_frame : List ℕ → Frame
unfolding u16_of u32_of u64_of declared_length
read_frame d = record {
  version = byte d 0;
  type = byte d 1;
  flags = u16_of (byte d 2) (byte d 3);
  circuit_id =
      u64_of (byte d 4) (byte d 5) (byte d 6) (byte d 7) (byte d 8) (byte d 9) (byte d 10)
        (byte d 11);
  stream_id = u32_of (byte d 12) (byte d 13) (byte d 14) (byte d 15);
  payload = take (declared_length d) (drop header_size d);
}

unfoldable pub decode_frame : List ℕ → Result FrameDecodeError Frame
decode_frame d = do
  require (not (ltb (length d) header_size)) (decode_error_of "Frame too short" protocol_violation)
  let frame = read_frame d
  require (frame.version == protocol_version)
      (decode_error_of "Unsupported protocol version" unsupported_version)
  require (is_frame_type frame.type) (decode_error_of "Unknown frame type" protocol_violation)
  require (stray_flags frame.flags (allowed_flags frame.type) == 0)
      (decode_error_of "Unknown flag bits set for this frame type" protocol_violation)
  let size = declared_length d
  require (leb size max_frame_payload)
      (decode_error_of "Declared payload exceeds MAX_FRAME_PAYLOAD" protocol_violation)
  require (length d == header_size + size)
      (decode_error_of "Frame length mismatch" protocol_violation)
  ok frame
