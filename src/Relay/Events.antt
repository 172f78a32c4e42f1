-- ===== src/Relay/Events.antt =====
-- packages/relay-core/src/core.ts: a relay from its start, and the calls and answers that reach it.
use tnp.Prelude.{ℕ, true, false, Option, none, List, [], ◌∷◌}
use tnp.Prelude.Counts.{pos}
use tnp.Relay.Limits.{RelayLimits}
use tnp.Relay.Connections.{
  admit, release_admission, accept_client, accept_service, on_transport_closed, shutdown,
}
use tnp.Relay.Services.{Trust, ServiceAuth, verify_service, recheck}
use tnp.Relay.Dispatch.{Identity, receive}
use tnp.Relay.Sweeping.{sweep}
use tnp.Relay.State.{Relay, Connection, Circuit, Counters, Environment, client_kind}

-- No object exists yet; what the functions give for one that was not made is of no account.
abbrev pub no_connection : Connection
no_connection = record {
  kind = client_kind;
  ip = 0;
  circuits = record { circuits = []; max_circuits = 0 };
  pending = pos 0;
  per_service = λ s. 0;
  violations = 0;
  closed = true;
  opened_at = 0;
  identity_proven = false;
  state = none;
  challenge = none;
  name = none;
  node_key = none;
  domain_key = none;
  auth_not_after = none;
  auth_checked_at = none;
}

abbrev pub no_circuit : Circuit
no_circuit = record {
  client = 0;
  client_id = 0;
  service = 0;
  service_id = 0;
  open_circuit = false;
  created_at = 0;
  last_activity = 0;
  name = [];
}

abbrev pub no_counts : Counters
no_counts = record {
  circuits_opened = 0;
  circuits_rejected = 0;
  frames_forwarded = 0;
  bytes_forwarded = 0;
  frames_dropped = 0;
  protocol_violations = 0;
  backpressure_destroys = 0;
  auth_failures = 0;
  idle_destroys = 0;
  memory_closes = 0;
}

abbrev pub start : RelayLimits → Relay
start limits = record {
  limits = limits;
  connection = λ i. no_connection;
  circuit = λ k. no_circuit;
  next_connection = 0;
  next_circuit = 0;
  ips = [];
  connections = [];
  services = [];
  circuit_count = pos 0;
  ip_service = λ ip name. 0;
  counters = no_counts;
  outputs = [];
}

-- The calls of the server, the timer, and the answers of the registry. An answer names the proof or
-- the connection that asked.
pub data Event (Grant : Type 0) : Type 0 where
  asks_in withdraws client_comes : (ip : ℕ) → Event Grant
  service_comes : (challenge : List ℕ) → (ip : ℕ) → Event Grant
  says : (draws : List (List ℕ)) → (connection : ℕ) → List ℕ → Event Grant
  goes : (connection : ℕ) → Event Grant
  key_found : (connection : ℕ) → ServiceAuth Grant → Option (List ℕ) → Event Grant
  key_checked : (connection : ℕ) → Option (List ℕ) → Event Grant
  timer stopped : Event Grant

module _ {Grant : Type 0} (trust : Trust Grant) (identity : Identity) where
  unfoldable pub step : Environment → Event Grant → Relay → Relay
  step env (asks_in ip) r = (admit env ip r).1
  step env (withdraws ip) r = release_admission ip r
  step env (client_comes ip) r = accept_client env ip r
  step env (service_comes challenge ip) r = accept_service env challenge ip r
  step env (says draws conn bytes) r = (receive trust identity env draws conn bytes r).0
  step env (goes conn) r = on_transport_closed conn r
  step env (key_found conn proof key) r = verify_service trust env conn proof key r
  step env (key_checked conn key) r = recheck conn key r
  step env timer r = (sweep env r).0
  step env stopped r = shutdown r

  unfoldable pub run : List (Environment × Event Grant) → Relay → Relay
  run [] r = r
  run ((env, event) ∷ rest) r = run rest (step env event r)
