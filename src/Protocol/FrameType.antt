-- ===== src/Protocol/FrameType.antt =====
-- The values of `FrameType` and the flag bits (packages/protocol/src/constants.ts).
use tnp.Prelude.{
  ℕ, ◌+◌, ◌<◌, ◌≡◌, ◌⊎◌, inl, inr, Bool, true, false, ◌||◌, List, [], ◌∷◌, arith, ◌==◌,
  if◌then◌else◌, Bool-cases,
}

abbrev pub hello : ℕ
hello = 0x01

abbrev pub hello_ack : ℕ
hello_ack = 0x02

abbrev pub auth : ℕ
auth = 0x03

abbrev pub auth_ok : ℕ
auth_ok = 0x04

abbrev pub ping : ℕ
ping = 0x05

abbrev pub pong : ℕ
pong = 0x06

abbrev pub goaway : ℕ
goaway = 0x07

abbrev pub circuit_create : ℕ
circuit_create = 0x10

abbrev pub circuit_created : ℕ
circuit_created = 0x11

abbrev pub circuit_extend : ℕ
circuit_extend = 0x12

abbrev pub circuit_extended : ℕ
circuit_extended = 0x13

abbrev pub circuit_destroy : ℕ
circuit_destroy = 0x14

abbrev pub circuit_padding : ℕ
circuit_padding = 0x15

abbrev pub stream_open : ℕ
stream_open = 0x20

abbrev pub stream_opened : ℕ
stream_opened = 0x21

abbrev pub stream_data : ℕ
stream_data = 0x22

abbrev pub stream_window : ℕ
stream_window = 0x23

abbrev pub stream_close : ℕ
stream_close = 0x24

abbrev pub stream_reset : ℕ
stream_reset = 0x25

abbrev pub error_frame : ℕ
error_frame = 0x30

-- `FRAME_TYPE_VALUES`
abbrev pub frame_type_values : List ℕ
frame_type_values =
    hello ∷ hello_ack ∷ auth ∷ auth_ok ∷ ping ∷ pong ∷ goaway ∷ circuit_create ∷ circuit_created
    ∷ circuit_extend ∷ circuit_extended ∷ circuit_destroy ∷ circuit_padding ∷ stream_open
    ∷ stream_opened ∷ stream_data ∷ stream_window ∷ stream_close ∷ stream_reset ∷ error_frame ∷ []

-- `Set.has`
unfoldable pub has : List ℕ → ℕ → Bool
has [] v = false
has (x ∷ xs) v = x == v || has xs v

unfoldable pub is_frame_type : ℕ → Bool
unfolding has
is_frame_type value = has frame_type_values value

abbrev pub close_write : ℕ
close_write = 0x0001

abbrev pub close_read : ℕ
close_read = 0x0002

-- `FLAGS_BY_TYPE[type] ?? 0`; the two bits are disjoint, so `|` is `+`.
unfoldable pub allowed_flags : ℕ → ℕ
allowed_flags type = if type == stream_close then close_write + close_read else 0

-- A frame type fits the header's byte.
pub is_frame_type-lt : (v : ℕ) → is_frame_type v ≡ true → v < 256
unfolding is_frame_type
is_frame_type-lt v h = ground arith

pub allowed_flags-cases : (t : ℕ) → (allowed_flags t ≡ 0) ⊎ (allowed_flags t ≡ 3)
unfolding allowed_flags
allowed_flags-cases t = elim (Bool-cases (t == stream_close)) [
  | inl e ↦ inr (rw e)
  | inr e ↦ inl (rw e)
]
