-- ===== src/Relay/Circuits/Readdressing.antt =====
-- A forwarded frame differs from the one that came in the circuit identifier alone.
use tnp.Prelude.{ℕ, ◌^◌, ◌≤◌, ◌<◌, ◌≡◌, refl, List, ◌∷◌, length, arith, ok}
use tnp.Prelude.Bytes.{u64_bytes, u32_bytes, u16_bytes, u64_of, u32_of, u16_of}
use tnp.Protocol.Frame.{Frame, decode_frame, read_frame, declared_length}
use tnp.Protocol.Frame.Bounds.{decode_frame-eq-ok}
use tnp.Relay.Circuits.{readdressed}

-- The identifier alone is read from other bytes.
read_frame-readdressed :
    (raw : List ℕ) (id : ℕ)
    → 20 ≤ length raw
    → id < 2 ^ 64
    → (read_frame (readdressed raw id) ≡ record (read_frame raw) { circuit_id = id })
      × (length (readdressed raw id) ≡ length raw)
      × (declared_length (readdressed raw id) ≡ declared_length raw)
unfolding read_frame readdressed u64_bytes u32_bytes u16_bytes u64_of u32_of u16_of declared_length
read_frame-readdressed
      (b0 ∷ b1 ∷ b2 ∷ b3 ∷ b4 ∷ b5 ∷ b6 ∷ b7 ∷ b8 ∷ b9 ∷ b10 ∷ b11 ∷ b12 ∷ b13 ∷ b14 ∷ b15 ∷ b16
        ∷ b17 ∷ b18 ∷ b19 ∷ p)
      id h l =
    (ground arith, refl, refl)
read_frame-readdressed raw id h l = absurd (omega arith)

-- Whatever frame is forwarded under an identifier of 64 bits, the receiver decodes the same version,
-- type, flags, stream and payload, with that identifier.
pub decode_frame-readdressed :
    (raw : List ℕ) (frame : Frame) (id : ℕ)
    → id < 2 ^ 64
    → decode_frame raw ≡ ok frame
    → decode_frame (readdressed raw id) ≡ ok (record frame { circuit_id = id })
unfolding decode_frame
decode_frame-readdressed raw frame id l e =
    let (same, long, version, known, flags, size, exact) = decode_frame-eq-ok raw frame e in
    let (fields, lengths, declared) = read_frame-readdressed raw id long l in
    ground (arith, same, fields, lengths, declared, version, known, flags, size, exact)
