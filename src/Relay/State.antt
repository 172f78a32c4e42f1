-- ===== src/Relay/State.antt =====
-- packages/relay-core/src/core.ts: the state of the relay. An object is a number, which stands for
-- its identity, and the relay holds the fields of every object that was made.
use tnp.Prelude.Texts.{same_text}
use tnp.Prelude.{ℕ, Bool, ◌==◌, if◌then◌else◌, Option, none, some, List, [], ◌∷◌, ◌++◌}
use tnp.Prelude.Counts.{ℤ}
use tnp.Protocol.CircuitId.{CircuitTable}
use tnp.Protocol.Frame.{EncodeOptions}
use tnp.Relay.Limits.{RelayLimits}
use tnp.Relay.Ips.{IpTable}

pub record Circuit : Type 0 where
  pub client : ℕ
  pub client_id : ℕ
  pub service : ℕ
  pub service_id : ℕ
  pub open_circuit : Bool
  pub created_at : ℕ
  pub last_activity : ℕ
  pub name : List ℕ

pub data Kind : Type 0 where
  client_kind service_kind : Kind

pub data ServiceState : Type 0 where
  awaiting_auth verifying ready : ServiceState

-- `perService` has entries only while they are positive, so it is a function whose default is zero.
pub record Connection : Type 0 where
  pub kind : Kind
  pub ip : ℕ
  pub circuits : CircuitTable ℕ
  pub pending : ℤ
  pub per_service : ℕ → ℕ
  pub violations : ℕ
  pub closed : Bool
  pub opened_at : ℕ
  pub identity_proven : Bool
  pub state : Option ServiceState
  pub challenge : Option (List ℕ)
  pub name : Option (List ℕ)
  pub node_key : Option (List ℕ)
  pub domain_key : Option (List ℕ)
  pub auth_not_after : Option ℕ
  pub auth_checked_at : Option ℕ

pub record Counters : Type 0 where
  pub circuits_opened : ℕ
  pub circuits_rejected : ℕ
  pub frames_forwarded : ℕ
  pub bytes_forwarded : ℕ
  pub frames_dropped : ℕ
  pub protocol_violations : ℕ
  pub backpressure_destroys : ℕ
  pub auth_failures : ℕ
  pub idle_destroys : ℕ
  pub memory_closes : ℕ

-- What the relay asks of a transport: to send a frame of its own or a forwarded one, or to close.
pub data Output : Type 0 where
  send : ℕ → EncodeOptions → Output
  send_error : (connection code : ℕ) → Output
  forwarded : ℕ → List ℕ → Output
  close : (connection code : ℕ) → Output

-- `ipService` is a function like `perService`; its key is the address and the name.
pub record Relay : Type 0 where
  pub limits : RelayLimits
  pub connection : ℕ → Connection
  pub circuit : ℕ → Circuit
  pub next_connection : ℕ
  pub next_circuit : ℕ
  pub ips : IpTable
  pub connections : List ℕ
  pub services : List (List ℕ × ℕ)
  pub circuit_count : ℤ
  pub ip_service : ℕ → List ℕ → ℕ
  pub counters : Counters
  pub outputs : List Output

-- One reading of the clock, and what each transport answers, during one event.
pub record Environment : Type 0 where
  pub now : ℕ
  pub buffered : ℕ → ℕ
  -- `send` returned zero: the connection is going away.
  pub going : ℕ → Bool

abbrev pub update {ℓ} : {A : Type ℓ} → (ℕ → A) → ℕ → A → ℕ → A
update f i v j = if i == j then v else f j

unfoldable pub set_connection : ℕ → Connection → Relay → Relay
set_connection i c r = record r { connection = update r.connection i c }

unfoldable pub set_circuit : ℕ → Circuit → Relay → Relay
set_circuit k c r = record r { circuit = update r.circuit k c }

unfoldable pub count : (Counters → Counters) → Relay → Relay
count f r = record r { counters = f r.counters }

unfoldable pub output : Output → Relay → Relay
output o r = record r { outputs = r.outputs ++ (o ∷ []) }

-- The map of the services, by name.
unfoldable pub find_service : List ℕ → List (List ℕ × ℕ) → Option ℕ
find_service name [] = none
find_service name ((other, i) ∷ rest) =
    let found = find_service name rest in if same_text other name then some i else found

unfoldable pub set_service : List ℕ → ℕ → List (List ℕ × ℕ) → List (List ℕ × ℕ)
set_service name i [] = (name, i) ∷ []
set_service name i ((other, j) ∷ rest) =
    let later = set_service name i rest in
    if same_text other name then (other, i) ∷ rest else (other, j) ∷ later

unfoldable pub delete_service : List ℕ → List (List ℕ × ℕ) → List (List ℕ × ℕ)
delete_service name [] = []
delete_service name ((other, j) ∷ rest) =
    let later = delete_service name rest in
    if same_text other name then rest else (other, j) ∷ later
