-- ===== src/Protocol/FlowControl.antt =====
-- packages/protocol/src/flow-control.ts: credit windows. A method that throws returns no new state:
-- `assertCredit` runs before the first assignment.
pub mod Window
pub mod Shared
mod Runs
use tnp.Prelude.{
  ℕ, ◌+◌, ◌-◌, ◌==◌, Bool, true, false, ltb, leb, min, if◌then◌else◌, Result, ok, err, ◌>>=◌, ◌>>◌,
  require, not, Number, whole, not_whole, RangeError,
}

abbrev pub max_window_credit : ℕ
max_window_credit = 0xffff_ffff

abbrev pub credit_error : RangeError
credit_error = record { message = "credit must be an integer in [0, MAX_WINDOW_CREDIT]" }

-- `assertCredit`, with the amount that it lets through.
unfoldable pub assert_credit : Number → Result RangeError ℕ
assert_credit (whole bytes) = if leb bytes max_window_credit then ok bytes else err credit_error
assert_credit not_whole = err credit_error

pub record FlowWindow : Type 0 where
  pub available : ℕ
  pub initial : ℕ

-- `new FlowWindow(initial)`
unfoldable pub create : Number → Result RangeError FlowWindow
unfolding assert_credit
create initial = do
  size ← assert_credit initial
  require (not (size == 0)) (record { message = "FlowWindow: initial window must be positive" })
  ok (record { available = size; initial = size })

unfoldable pub exhausted : FlowWindow → Bool
exhausted w = w.available == 0

-- What `consume` does with an amount that is a credit.
unfoldable pub debit : FlowWindow → ℕ → Bool × FlowWindow
debit w bytes =
    if ltb w.available bytes
    then (false, w)
    else (true, record w { available = w.available - bytes })

unfoldable pub consume : FlowWindow → Number → Result RangeError (Bool × FlowWindow)
unfolding assert_credit debit
consume w amount = do bytes ← assert_credit amount; ok (debit w bytes)

unfoldable pub credit : FlowWindow → ℕ → FlowWindow
credit w bytes = record w {
  available = if leb (w.initial - w.available) bytes then w.initial else w.available + bytes;
}

unfoldable pub grant : FlowWindow → Number → Result RangeError FlowWindow
unfolding assert_credit credit
grant w amount = do bytes ← assert_credit amount; ok (credit w bytes)

unfoldable pub reset : FlowWindow → FlowWindow
reset w = record w { available = w.initial }

-- A stream's window, and the circuit's, which the circuit's other streams share: a caller that
-- keeps several streams keeps one circuit window and puts it back after each call.
pub record StreamFlow : Type 0 where
  pub stream : FlowWindow
  pub circuit : FlowWindow

-- `new StreamFlow(circuit, streamWindow)`
unfoldable pub create_stream : FlowWindow → Number → Result RangeError StreamFlow
unfolding create
create_stream circuit stream_window = do
  stream ← create stream_window
  ok (record { stream = stream; circuit = circuit })

unfoldable pub sendable : StreamFlow → ℕ
sendable s = min s.stream.available s.circuit.available

-- The results of the two calls of `FlowWindow.consume` are dropped, as in the source.
unfoldable pub debit_both : StreamFlow → ℕ → Bool × StreamFlow
unfolding debit sendable
debit_both s bytes =
    if ltb (sendable s) bytes
    then (false, s)
    else (true, record { stream = (debit s.stream bytes).1; circuit = (debit s.circuit bytes).1 })

unfoldable pub consume_both : StreamFlow → Number → Result RangeError (Bool × StreamFlow)
unfolding assert_credit debit_both
consume_both s amount = do bytes ← assert_credit amount; ok (debit_both s bytes)

unfoldable pub grant_both : StreamFlow → Number → Result RangeError StreamFlow
unfolding assert_credit credit
grant_both s amount = do
  bytes ← assert_credit amount
  ok (record { stream = credit s.stream bytes; circuit = credit s.circuit bytes })
