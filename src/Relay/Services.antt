-- ===== src/Relay/Services.antt =====
-- packages/relay-core/src/core.ts: a service node proves itself. The certificates and signatures of
-- packages/crypto, which Certified puts in place, and the JSON reader behind decodeServiceAuth are
-- parameters here (`Trust`).
pub mod Spares
pub mod Incumbent
pub mod Certified
pub mod Runs
use tnp.Prelude.Texts.{same_text}
use tnp.Prelude.{
  ℕ, suc, ◌/◌, Bool, true, false, not, ◌||◌, leb, ◌==◌, if◌then◌else◌, Option, none, some, List,
  length, Result, ok, err,
}
use tnp.Protocol.ErrorCode.{
  auth_required, auth_failed, auth_expired, revoked, rate_limit, protocol_violation,
  already_registered, resource_exhausted,
}
use tnp.Protocol.Frame.{Frame, EncodeOptions}
use tnp.Protocol.FrameType.{auth, auth_ok}
use tnp.Relay.Ips.{allow_auth}
use tnp.Relay.Connections.{fail, close_connection, close_normal, close_policy, close_try_later}
use tnp.Relay.State.{
  Relay, Environment, send, ServiceState, awaiting_auth, verifying, ready, set_connection, count,
  output, find_service, set_service,
}

pub record ServiceAuth (Grant : Type 0) : Type 0 where
  pub name : List ℕ
  pub chain : List Grant
  pub signature : List ℕ

-- Why `verifyChain` refuses, as far as the relay tells it apart.
pub data ChainError : Type 0 where
  expired withdrawn invalid : ChainError

pub record Subject : Type 0 where
  pub key : List ℕ
  pub not_after : ℕ

pub record Trust (Grant : Type 0) : Type 0 where
  pub decode_service_auth : List ℕ → Option (ServiceAuth Grant)
  -- the chain, the trusted root, the time in seconds, and the name that is required as its scope
  pub verify_chain : List Grant → List ℕ → ℕ → List ℕ → Result ChainError Subject
  -- the name, the challenge, the node key and the signature, for this relay's endpoint
  pub verify_service_auth : List ℕ → List ℕ → List ℕ → List ℕ → Bool

unfoldable pub refuse : (conn code : ℕ) → Relay → Relay
refuse conn code r =
    fail conn code (if code == resource_exhausted then close_try_later else close_policy)
      (count (λ s. record s { auth_failures = suc s.auth_failures }) r)

abbrev chain_code : ChainError → ℕ
chain_code expired = auth_expired
chain_code withdrawn = revoked
chain_code invalid = auth_failed

unfoldable pub is_awaiting : Option ServiceState → Bool
is_awaiting (some awaiting_auth) = true
is_awaiting s = false

unfoldable pub same_key : Option (List ℕ) → List ℕ → Bool
same_key none key = false
same_key (some other) key = same_text other key

-- Nothing but AUTH is processed before AUTH_OK.
unfoldable pub wrong_frame : ℕ → Frame → Relay → Bool
wrong_frame conn frame r =
    not (is_awaiting (r.connection conn).state)
    || (not (frame.type == auth) || not (frame.circuit_id == 0))

abbrev auth_ok_frame : EncodeOptions
auth_ok_frame = record {
  type = auth_ok;
  circuit_id = none;
  stream_id = none;
  flags = none;
  payload = none;
}

-- What the connection becomes once it is registered.
unfoldable pub register :
    Environment → ℕ → (name node_key domain_key : List ℕ) → (not_after : ℕ) → Relay → Relay
register env conn name node_key domain_key not_after r =
    if leb r.limits.max_service_nodes (length r.services)
    then refuse conn resource_exhausted r
    else let c = r.connection conn in
      let r1 =
        set_connection conn
          (record c {
            state = some ready;
            name = some name;
            node_key = some node_key;
            domain_key = some domain_key;
            auth_not_after = some not_after;
            auth_checked_at = some env.now;
            challenge = none;
          })
          r in
      output (send conn auth_ok_frame) (record r1 { services = set_service name conn r1.services })

-- A name that another node serves is not taken over; the same node may connect again.
unfoldable pub contend :
    Environment → ℕ → (name node_key domain_key : List ℕ) → (not_after : ℕ) → Relay → Relay
contend env conn name node_key domain_key not_after r = elim (find_service name r.services) [
  | none ↦ register env conn name node_key domain_key not_after r
  | some incumbent ↦
      if (r.connection incumbent).closed
      then register env conn name node_key domain_key not_after r
      else if same_key (r.connection incumbent).node_key node_key
      then register env conn name node_key domain_key not_after
          (close_connection incumbent close_normal r)
      else refuse conn already_registered r
]

module _ {Grant : Type 0} (trust : Trust Grant) where
  unfoldable pub is_proof : Option (List ℕ) → ServiceAuth Grant → List ℕ → Bool
  is_proof none a key = false
  is_proof (some challenge) a key = trust.verify_service_auth a.name challenge key a.signature

  -- `verifyService` once the domain key is known; a lookup that failed has found none.
  unfoldable pub verify_service :
      Environment → ℕ → ServiceAuth Grant → Option (List ℕ) → Relay → Relay
  verify_service env conn a domain_key r =
      if (r.connection conn).closed then r else elim domain_key [
        | none ↦ refuse conn auth_failed r
        | some root ↦ elim (trust.verify_chain a.chain root (env.now / 1000) a.name) [
          | err e ↦ refuse conn (chain_code e) r
          | ok subject ↦
              if is_proof (r.connection conn).challenge a subject.key
              then contend env conn a.name subject.key root subject.not_after r
              else refuse conn auth_failed r
        ]
      ]

  -- With the proof whose domain key is then looked up.
  unfoldable pub receive_unauthenticated :
      Environment → ℕ → Frame → Relay → Relay × Option (ServiceAuth Grant)
  receive_unauthenticated env conn frame r =
      let counted = count (λ s. record s { auth_failures = suc s.auth_failures }) r in
      if wrong_frame conn frame r
      then (fail conn auth_required close_policy counted, none)
      else elim (trust.decode_service_auth frame.payload) [
        | none ↦ (fail conn protocol_violation close_policy counted, none)
        | some a ↦
            let (granted, ips) = allow_auth (r.connection conn).ip env.now r.ips in
            let r' = record r { ips = ips } in
            let c = r'.connection conn in
            if granted
            then (set_connection conn (record c { state = some verifying }) r', some a)
            else (refuse conn rate_limit r', none)
      ]

-- `recheckDomainKey` once the key is known; a lookup that failed keeps the node.
unfoldable pub recheck : ℕ → Option (List ℕ) → Relay → Relay
recheck conn current r =
    let c = r.connection conn in
    if c.closed then r else elim current [
      | none ↦ fail conn revoked close_policy r
      | some key ↦ if same_key c.domain_key key then r else fail conn revoked close_policy r
    ]
