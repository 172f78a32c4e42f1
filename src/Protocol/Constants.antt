-- ===== src/Protocol/Constants.antt =====
-- The limits of packages/protocol/src/constants.ts.
use tnp.Prelude.{ℕ, ◌+◌, ◌-◌, ◌*◌, ◌^◌}

abbrev pub protocol_version : ℕ
protocol_version = 0x01

abbrev pub header_size : ℕ
header_size = 20

abbrev pub max_frame_payload : ℕ
max_frame_payload = 65535

abbrev pub max_frame_size : ℕ
max_frame_size = header_size + max_frame_payload

abbrev pub max_streams_per_circuit : ℕ
max_streams_per_circuit = 256

abbrev pub max_circuits_per_connection : ℕ
max_circuits_per_connection = 64

abbrev pub max_pending_opens : ℕ
max_pending_opens = 32

abbrev pub stream_window_initial : ℕ
stream_window_initial = 256 * 1024

abbrev pub circuit_window_initial : ℕ
circuit_window_initial = 1024 * 1024

abbrev pub handshake_timeout_ms : ℕ
handshake_timeout_ms = 10_000

abbrev pub max_error_detail : ℕ
max_error_detail = 256

abbrev pub handshake_message_size : ℕ
handshake_message_size = 48

abbrev pub sealed_record_overhead : ℕ
sealed_record_overhead = 25

abbrev pub max_sealed_plaintext : ℕ
max_sealed_plaintext = max_frame_payload - sealed_record_overhead

abbrev pub max_records_per_key : ℕ
max_records_per_key = 2 ^ 32

abbrev pub key_update_interval : ℕ
key_update_interval = 2 ^ 24
