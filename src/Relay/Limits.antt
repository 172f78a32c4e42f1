-- ===== src/Relay/Limits.antt =====
-- packages/relay-core/src/limits.ts: the bounds, and the token bucket.
pub mod Rate
use tnp.Prelude.{ℕ, ◌+◌, ◌-◌, ◌*◌, Bool, true, false, ltb, leb, if◌then◌else◌, min}
use tnp.Protocol.Constants.{
  handshake_timeout_ms, max_circuits_per_connection, max_pending_opens, stream_window_initial,
}

-- A rate is in tenths of a token a second, since one of the defaults is 0.2.
pub record RelayLimits : Type 0 where
  pub max_connections : ℕ
  pub max_connections_per_ip : ℕ
  pub connect_burst_per_ip : ℕ
  pub connect_refill_per_second_per_ip : ℕ
  pub max_circuits_per_client : ℕ
  pub max_pending_per_client : ℕ
  pub max_circuits_per_service : ℕ
  pub max_circuits_per_client_per_service : ℕ
  pub max_circuits_per_ip_per_service : ℕ
  pub circuit_idle_ms : ℕ
  pub global_buffer_limit : ℕ
  pub auth_burst_per_ip : ℕ
  pub auth_refill_per_second_per_ip : ℕ
  pub lookup_negative_ttl_ms : ℕ
  pub lookup_cache_max : ℕ
  pub max_circuits : ℕ
  pub max_service_nodes : ℕ
  pub create_burst_per_ip : ℕ
  pub create_refill_per_second_per_ip : ℕ
  pub client_buffer_limit : ℕ
  pub service_buffer_limit : ℕ
  pub handshake_timeout_ms : ℕ
  pub create_timeout_ms : ℕ
  pub max_violations : ℕ
  pub max_tracked_ips : ℕ
  pub reauth_interval_ms : ℕ

abbrev slack : ℕ
slack = 1024 * 1024

abbrev pub default_limits : RelayLimits
default_limits = record {
  max_connections = 4096;
  max_connections_per_ip = 32;
  connect_burst_per_ip = 30;
  connect_refill_per_second_per_ip = 10;
  max_circuits_per_client = max_circuits_per_connection;
  max_pending_per_client = max_pending_opens;
  max_circuits_per_service = 256;
  max_circuits_per_client_per_service = 16;
  max_circuits_per_ip_per_service = 16;
  circuit_idle_ms = 15 * 60_000;
  global_buffer_limit = 512 * 1024 * 1024;
  auth_burst_per_ip = 10;
  auth_refill_per_second_per_ip = 2;
  lookup_negative_ttl_ms = 30_000;
  lookup_cache_max = 4096;
  max_circuits = 32_768;
  max_service_nodes = 4096;
  create_burst_per_ip = 128;
  create_refill_per_second_per_ip = 320;
  client_buffer_limit = max_circuits_per_connection * stream_window_initial + slack;
  service_buffer_limit = 256 * stream_window_initial + slack;
  handshake_timeout_ms = handshake_timeout_ms;
  create_timeout_ms = handshake_timeout_ms;
  max_violations = 64;
  max_tracked_ips = 65_536;
  reauth_interval_ms = 10 * 60_000;
}

-- Tokens are counted exactly, in units of 1/10000: with a rate in tenths a second, a millisecond adds
-- as many units as the rate says. The source adds the same fractions in floating point.
abbrev pub token : ℕ
token = 10_000

pub record TokenBucket : Type 0 where
  pub capacity : ℕ
  pub refill_per_second : ℕ
  pub tokens : ℕ
  pub last : ℕ

unfoldable pub create : (capacity refill_per_second now : ℕ) → TokenBucket
create capacity refill_per_second now = record {
  capacity = capacity;
  refill_per_second = refill_per_second;
  tokens = capacity * token;
  last = now;
}

unfoldable pub refill : TokenBucket → ℕ → TokenBucket
refill b now = record b {
  last = now;
  tokens = min (b.capacity * token) (b.tokens + (now - b.last) * b.refill_per_second);
}

-- The bucket after `refill` with a token taken, if it has one.
unfoldable pub take : TokenBucket → ℕ → Bool × TokenBucket
unfolding refill
take b now =
    let full = refill b now in
    if ltb full.tokens token
    then (false, full)
    else (true, record full { tokens = full.tokens - token })

unfoldable pub is_full : TokenBucket → ℕ → Bool × TokenBucket
unfolding refill
is_full b now = let b' = refill b now in (leb (b'.capacity * token) b'.tokens, b')
