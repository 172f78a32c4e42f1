-- ===== src/Protocol/ErrorCode.antt =====
-- The values of `ErrorCode` (packages/protocol/src/constants.ts).
use tnp.Prelude.{ℕ}

abbrev pub protocol_violation : ℕ
protocol_violation = 0x0001

abbrev pub unsupported_version : ℕ
unsupported_version = 0x0002

abbrev pub unsupported_capability : ℕ
unsupported_capability = 0x0003

abbrev pub auth_required : ℕ
auth_required = 0x0010

abbrev pub auth_failed : ℕ
auth_failed = 0x0011

abbrev pub auth_expired : ℕ
auth_expired = 0x0012

abbrev pub revoked : ℕ
revoked = 0x0013

abbrev pub already_registered : ℕ
already_registered = 0x0014

abbrev pub circuit_unknown : ℕ
circuit_unknown = 0x0020

abbrev pub circuit_limit : ℕ
circuit_limit = 0x0021

abbrev pub circuit_rejected : ℕ
circuit_rejected = 0x0022

abbrev pub stream_unknown : ℕ
stream_unknown = 0x0030

abbrev pub stream_limit : ℕ
stream_limit = 0x0031

abbrev pub stream_refused : ℕ
stream_refused = 0x0032

abbrev pub flow_control : ℕ
flow_control = 0x0040

abbrev pub rate_limit : ℕ
rate_limit = 0x0041

abbrev pub resource_exhausted : ℕ
resource_exhausted = 0x0042

abbrev pub target_unreachable : ℕ
target_unreachable = 0x0050

abbrev pub target_refused : ℕ
target_refused = 0x0051

abbrev pub replay_detected : ℕ
replay_detected = 0x0060

abbrev pub downgrade_detected : ℕ
downgrade_detected = 0x0061

abbrev pub decrypt_failed : ℕ
decrypt_failed = 0x0062

abbrev pub truncated : ℕ
truncated = 0x0063
