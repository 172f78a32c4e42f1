-- ===== src/Protocol/FlowControl/Shared.antt =====
-- The streams of one circuit: each has a window of its own, and all share the circuit's.
use tnp.Prelude.{
  ℕ, zero, suc, ◌+◌, ◌≤◌, ◌≡◌, true, false, none, some, List, [], ◌∷◌, arith, ok, err, Number,
  whole, not_whole, value, get_elem?, set, All, Option-cases, inl, inr,
}
use mathlib.Core.Path.{subst}
use mathlib.Core.Option.{some-injective}
use tnp.Protocol.FlowControl.{FlowWindow, StreamFlow, consume_both, grant_both, debit, credit}
use tnp.Protocol.FlowControl.Window.{IsWindow, debit-IsWindow, credit-IsWindow}

pub record Circuit : Type 0 where
  pub window : FlowWindow
  pub streams : List FlowWindow

-- A call on the stream at an index.
pub data Call : Type 0 where
  consume grant : (stream : ℕ) → Number → Call

unfoldable pub flow : Circuit → FlowWindow → StreamFlow
flow c w = record { stream = w; circuit = c.window }

unfoldable pub put_back : Circuit → ℕ → StreamFlow → Circuit
put_back c i s = record { window = s.circuit; streams = set c.streams i s.stream }

-- The state after a call, and the bytes that it let through and granted. A call that throws, or on
-- a stream that is not there, changes nothing.
unfoldable pub call_on : Circuit → ℕ → FlowWindow → Call → Circuit × ℕ × ℕ
unfolding flow put_back
call_on c i w (consume _ n) = elim (consume_both (flow c w) n) [
  | ok (true, s) ↦ (put_back c i s, value n, 0)
  | ok (false, s) ↦ (put_back c i s, 0, 0)
  | err e ↦ (c, 0, 0)
]
call_on c i w (grant _ n) = elim (grant_both (flow c w) n) [
  | ok s ↦ (put_back c i s, 0, value n)
  | err e ↦ (c, 0, 0)
]

abbrev pub target : Call → ℕ
target (consume i n) = i
target (grant i n) = i

unfoldable pub step : Circuit → Call → Circuit × ℕ × ℕ
unfolding call_on
step c call = elim (get_elem? c.streams (target call)) [
  | none ↦ (c, 0, 0)
  | some w ↦ call_on c (target call) w call
]

-- A run of calls, with the bytes let through and granted in all.
unfoldable pub run : Circuit → List Call → Circuit × ℕ × ℕ
run c [] = (c, 0, 0)
run c (call ∷ calls) =
    let (c', sent, granted) = step c call in
    let (c'', sent', granted') = run c' calls in (c'', sent + sent', granted + granted')

pub record IsCircuit (c : Circuit) : Type 0 where
  pub shared : IsWindow c.window
  pub each : All IsWindow c.streams

All-set :
    (ws : List FlowWindow) (i : ℕ) (w : FlowWindow)
    → All IsWindow ws
    → IsWindow w
    → All IsWindow (set ws i w)
All-set [] i w h v = tt
All-set (x ∷ ws) zero w h v = (v, h.1)
All-set (x ∷ ws) (suc i) w h v = (h.0, All-set ws i w h.1 v)

All-get_elem? :
    (ws : List FlowWindow) (i : ℕ) {w : FlowWindow}
    → All IsWindow ws
    → get_elem? ws i ≡ some w
    → IsWindow w
All-get_elem? [] i h e = cc
All-get_elem? (x ∷ ws) zero h e = subst IsWindow (some-injective _ _ e) h.0
All-get_elem? (x ∷ ws) (suc i) h e = All-get_elem? ws i h.1 e

call_on-balance :
    (c : Circuit) (i : ℕ) (w : FlowWindow) (call : Call)
    → IsWindow c.window
    → (call_on c i w call).1 + (call_on c i w call).0.window.available
      ≤ c.window.available + (call_on c i w call).2
unfolding call_on consume_both grant_both
call_on-balance c i w (consume _ n) v = ground arith
call_on-balance c i w (grant _ n) v = ground arith

call_on-IsCircuit :
    (c : Circuit) (i : ℕ) (w : FlowWindow) (call : Call)
    → IsCircuit c
    → IsWindow w
    → IsCircuit (call_on c i w call).0
unfolding call_on consume_both grant_both
call_on-IsCircuit c i w (consume _ not_whole) h v = h
call_on-IsCircuit c i w (consume _ (whole b)) h v = ground (
  arith,
  All-set c.streams i w h.each v,
  All-set c.streams i (debit w b).1 h.each (debit-IsWindow w b v),
  debit-IsWindow c.window b h.shared,
)
call_on-IsCircuit c i w (grant _ not_whole) h v = h
call_on-IsCircuit c i w (grant _ (whole b)) h v = ground (
  arith,
  credit-IsWindow c.window b h.shared,
  All-set c.streams i (credit w b) h.each (credit-IsWindow w b v),
)

step-IsCircuit : (c : Circuit) (call : Call) → IsCircuit c → IsCircuit (step c call).0
unfolding step
step-IsCircuit c call h = elim (Option-cases (get_elem? c.streams (target call))) [
  | inl e ↦ rw (e, step) h
  | inr (w, e) ↦
      rw (e, step) (call_on-IsCircuit c (target call) w call h (All-get_elem? c.streams _ h.each e))
]

step-balance :
    (c : Circuit) (call : Call)
    → IsCircuit c
    → (step c call).1 + (step c call).0.window.available ≤ c.window.available + (step c call).2
unfolding step
step-balance c call h = elim (Option-cases (get_elem? c.streams (target call))) [
  | inl e ↦ rw (e, step) (omega arith)
  | inr (w, e) ↦ rw (e, step) (call_on-balance c (target call) w call h.shared)
]

-- Whatever calls a circuit's streams make, every window stays within its bounds.
pub run-IsCircuit : (c : Circuit) (calls : List Call) → IsCircuit c → IsCircuit (run c calls).0
unfolding run
run-IsCircuit c [] h = h
run-IsCircuit c (call ∷ calls) h = run-IsCircuit (step c call).0 calls (step-IsCircuit c call h)

-- The circuit window is a ceiling across all of the circuit's streams: however the calls interleave
-- and on whichever streams, the bytes let through and the credit left never exceed the credit at the
-- start and the credit granted since.
pub run-balance :
    (c : Circuit) (calls : List Call)
    → IsCircuit c
    → (run c calls).1 + (run c calls).0.window.available ≤ c.window.available + (run c calls).2
unfolding run
run-balance c [] h = omega arith
run-balance c (call ∷ calls) h =
    omega
      (arith, step-balance c call h, run-balance (step c call).0 calls (step-IsCircuit c call h))
