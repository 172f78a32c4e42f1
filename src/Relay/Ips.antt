-- ===== src/Relay/Ips.antt =====
-- packages/relay-core/src/limits.ts: `IpTracker`. An address is a number, and the map an association
-- list in insertion order.
pub mod Bounds
use tnp.Prelude.{
  ℕ, suc, ◌-◌, Bool, false, not, ltb, leb, ◌==◌, if◌then◌else◌, none, some, List, [], ◌∷◌, length,
}
use tnp.Prelude.Maps.{lookup, insert}
use tnp.Relay.Limits.{RelayLimits, TokenBucket, create, take, is_full}

pub record IpEntry : Type 0 where
  pub connections : ℕ
  pub connect : TokenBucket
  pub creating : TokenBucket
  pub auth : TokenBucket

abbrev pub IpTable : Type 0
IpTable = List (ℕ × IpEntry)

pub data Verdict : Type 0 where
  admitted rate per_ip table_full : Verdict

-- What an entry without connections is once its buckets are read, as far as `&&` reads them, and
-- whether it is dropped.
unfoldable pub settle : ℕ → IpEntry → Bool × IpEntry
settle now e =
    if not (e.connections == 0)
    then (false, e)
    else let (connect_full, connect) = is_full e.connect now in
      let (create_full, creating) = is_full e.creating now in
      let (auth_full, auth) = is_full e.auth now in
      if connect_full
      then if create_full
        then (auth_full, record e { connect = connect; creating = creating; auth = auth })
        else (false, record e { connect = connect; creating = creating })
      else (false, record e { connect = connect })

unfoldable pub sweep : ℕ → IpTable → IpTable
unfolding settle
sweep now [] = []
sweep now ((ip, e) ∷ rest) =
    let swept = sweep now rest in
    let (idle, e') = settle now e in if idle then swept else (ip, e') ∷ swept

unfoldable pub new_entry : RelayLimits → ℕ → IpEntry
new_entry l now = record {
  connections = 0;
  connect = create l.connect_burst_per_ip l.connect_refill_per_second_per_ip now;
  creating = create l.create_burst_per_ip l.create_refill_per_second_per_ip now;
  auth = create l.auth_burst_per_ip l.auth_refill_per_second_per_ip now;
}

-- What `admit` does with the entry of the address.
unfoldable pub admit_entry : RelayLimits → ℕ → ℕ → IpEntry → IpTable → Verdict × IpTable
admit_entry l ip now e t =
    if leb l.max_connections_per_ip e.connections
    then (per_ip, insert ip e t)
    else let (granted, connect) = take e.connect now in
      if granted
      then (admitted, insert ip (record e { connections = suc e.connections; connect = connect }) t)
      else (rate, insert ip (record e { connect = connect }) t)

unfoldable pub admit : RelayLimits → ℕ → ℕ → IpTable → Verdict × IpTable
unfolding admit_entry
admit l ip now t = elim (lookup ip t) [
  | some e ↦ admit_entry l ip now e t
  | none ↦
      let room = if leb l.max_tracked_ips (length t) then sweep now t else t in
      if leb l.max_tracked_ips (length room)
      then (table_full, room)
      else admit_entry l ip now (new_entry l now) room
]

unfoldable pub release : ℕ → IpTable → IpTable
release ip t = elim (lookup ip t) [
  | none ↦ t
  | some e ↦
      if ltb 0 e.connections then insert ip (record e { connections = e.connections - 1 }) t else t
]

unfoldable pub allow_create : ℕ → ℕ → IpTable → Bool × IpTable
allow_create ip now t = elim (lookup ip t) [
  | none ↦ (false, t)
  | some e ↦
      let (granted, creating) = take e.creating now in
      (granted, insert ip (record e { creating = creating }) t)
]

unfoldable pub allow_auth : ℕ → ℕ → IpTable → Bool × IpTable
allow_auth ip now t = elim (lookup ip t) [
  | none ↦ (false, t)
  | some e ↦
      let (granted, auth) = take e.auth now in (granted, insert ip (record e { auth = auth }) t)
]
