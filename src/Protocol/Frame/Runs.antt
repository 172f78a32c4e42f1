-- ===== src/Protocol/Frame/Runs.antt =====
-- Concrete frames, and the theorems at concrete inputs.
use tnp.Prelude.{ℕ, ◌+◌, ◌≤◌, ◌≡◌, refl, some, List, [], ◌∷◌, arith, length, ok, err, whole}
use tnp.Protocol.ErrorCode.{unsupported_version}
use tnp.Protocol.FrameType.{is_frame_type, allowed_flags, stream_close}
use tnp.Protocol.Frame.{
  Frame, EncodeOptions, encode_frame, header, check_flags, stray_flags, decode_frame, read_frame,
  decode_error_of,
}
use tnp.Protocol.Frame.Bounds.{IsFrame, decode_frame-IsFrame}
use tnp.Prelude.Utf8.{text_encode, encode_character}
use tnp.Protocol.Frame.Errors.{truncate_utf8, back_up, is_continuation, fitting, truncate_utf8_lem}
use tnp.Protocol.Frame.RoundTrip.{
  decode-encode_frame, frame_of, encode-decode_frame, options_of, encode_frame-with_high_flags,
  with_high_flags,
}

abbrev closing : EncodeOptions
closing = record {
  type = stream_close;
  circuit_id = some (whole 0x0102_0304_0506_0708);
  stream_id = some (whole 7);
  flags = some (whole 1);
  payload = some (9 ∷ 8 ∷ []);
}

abbrev closing_bytes : List ℕ
closing_bytes =
    1 ∷ 0x24 ∷ 0 ∷ 1 ∷ 1 ∷ 2 ∷ 3 ∷ 4 ∷ 5 ∷ 6 ∷ 7 ∷ 8 ∷ 0 ∷ 0 ∷ 0 ∷ 7 ∷ 0 ∷ 0 ∷ 0 ∷ 2 ∷ 9 ∷ 8 ∷ []

abbrev closing_frame : Frame
closing_frame = record {
  version = 1;
  type = stream_close;
  flags = 1;
  circuit_id = 0x0102_0304_0506_0708;
  stream_id = 7;
  payload = 9 ∷ 8 ∷ [];
}

encode_closing : encode_frame closing ≡ ok closing_bytes
unfolding encode_frame header check_flags stray_flags is_frame_type allowed_flags
encode_closing = refl

decode_closing : decode_frame closing_bytes ≡ ok closing_frame
unfolding decode_frame read_frame stray_flags is_frame_type allowed_flags
decode_closing = refl

decode_version :
    decode_frame (2 ∷ closing_bytes)
    ≡ err (decode_error_of "Unsupported protocol version" unsupported_version)
unfolding decode_frame read_frame stray_flags is_frame_type allowed_flags
decode_version = refl

decode-encode_frame_example : decode_frame closing_bytes ≡ ok (frame_of closing)
decode-encode_frame_example = decode-encode_frame closing closing_bytes encode_closing

encode-decode_frame_example : encode_frame (options_of closing_frame) ≡ ok closing_bytes
encode-decode_frame_example =
    encode-decode_frame closing_bytes closing_frame (omega arith) decode_closing

decode_frame-IsFrame_example :
    IsFrame closing_frame × (length closing_bytes ≡ 20 + length closing_frame.payload)
decode_frame-IsFrame_example =
    decode_frame-IsFrame closing_bytes closing_frame (omega arith) decode_closing

encode_frame-with_high_flags_example :
    encode_frame (with_high_flags 5 closing) ≡ encode_frame closing
encode_frame-with_high_flags_example = encode_frame-with_high_flags 5 1 closing refl

-- "a€b" in four bytes: the last character does not fit; in three, the second one neither.
truncated :
    (truncate_utf8 (0x61 ∷ 0x20ac ∷ 0x62 ∷ []) 4 ≡ 0x61 ∷ 0xe2 ∷ 0x82 ∷ 0xac ∷ [])
    × (truncate_utf8 (0x61 ∷ 0x20ac ∷ 0x62 ∷ []) 3 ≡ 0x61 ∷ [])
unfolding truncate_utf8 text_encode encode_character back_up is_continuation
truncated = (refl, refl)

truncate_utf8_lem_example :
    (truncate_utf8 (0x61 ∷ 0x20ac ∷ 0x62 ∷ []) 3
      ≡ text_encode (fitting 3 (0x61 ∷ 0x20ac ∷ 0x62 ∷ [])))
    × (length (truncate_utf8 (0x61 ∷ 0x20ac ∷ 0x62 ∷ []) 3) ≤ 3)
truncate_utf8_lem_example = truncate_utf8_lem (0x61 ∷ 0x20ac ∷ 0x62 ∷ []) 3
