-- ===== src/Protocol/FlowControl/Window.antt =====
-- One window: its invariant under every method.
use tnp.Prelude.{
  ℕ, ◌+◌, ◌≤◌, ◌<◌, ◌≡◌, refl, Bool, true, false, arith, ok, Number, whole, not_whole, ◌⊎◌,
}
use tnp.Protocol.FlowControl.{
  FlowWindow, StreamFlow, consume_both, create, debit, consume, credit, grant, reset,
  max_window_credit,
}

-- `0 <= available <= initial`, and the size fits a u32 and is not zero.
pub record IsWindow (w : FlowWindow) : Type 0 where
  pub bounded : w.available ≤ w.initial
  pub positive : 0 < w.initial
  pub fits : w.initial ≤ max_window_credit

pub create-IsWindow :
    (n : Number) (w : FlowWindow) → create n ≡ ok w → IsWindow w × (w.available ≡ w.initial)
unfolding create
create-IsWindow n w e = ground arith

pub debit-IsWindow : (w : FlowWindow) (b : ℕ) → IsWindow w → IsWindow (debit w b).1
unfolding debit
debit-IsWindow w b v = ground arith

pub credit-IsWindow : (w : FlowWindow) (b : ℕ) → IsWindow w → IsWindow (credit w b)
unfolding credit
credit-IsWindow w b v = ground arith

-- Every method keeps `0 <= available <= initial`, with the size unchanged, on every amount it is
-- given, and `reset` restores the whole size.
pub methods-IsWindow :
    (w : FlowWindow) (n : Number)
    → IsWindow w
    → ((done : Bool) (w' : FlowWindow)
        → consume w n ≡ ok (done, w')
        → IsWindow w' × (w'.initial ≡ w.initial))
      × ((w' : FlowWindow) → grant w n ≡ ok w' → IsWindow w' × (w'.initial ≡ w.initial))
      × (IsWindow (reset w) × ((reset w).available ≡ w.initial))
unfolding consume grant reset
methods-IsWindow w n v = (λ done w' e. ground arith, λ w' e. ground arith, ground arith)

-- `consume` lets an amount through exactly when it is a credit that the window covers; it then
-- takes exactly that amount, and otherwise leaves the window as it was.
pub consume_exact :
    (w : FlowWindow) (n : Number) (done : Bool) (w' : FlowWindow)
    → IsWindow w
    → consume w n ≡ ok (done, w')
    → (b : ℕ) × (n ≡ whole b)
      × (((done ≡ true) × (w'.available + b ≡ w.available))
          ⊎ ((done ≡ false) × (w.available < b) × (w' ≡ w)))
unfolding consume
consume_exact w (whole b) done w' v e = (b, refl, ground arith)
consume_exact w not_whole done w' v e = cc

-- `StreamFlow.consume` debits both windows by the amount, or neither: it refuses an amount that
-- either of the two cannot cover.
pub consume_both_exact :
    (s : StreamFlow) (b : ℕ) (done : Bool) (s' : StreamFlow)
    → IsWindow s.stream
    → IsWindow s.circuit
    → consume_both s (whole b) ≡ ok (done, s')
    → ((done ≡ true)
        × (s'.stream.available + b ≡ s.stream.available)
        × (s'.circuit.available + b ≡ s.circuit.available))
      ⊎ ((done ≡ false) × ((s.stream.available < b) ⊎ (s.circuit.available < b)) × (s' ≡ s))
unfolding consume_both
consume_both_exact s b done s' v u e = ground arith
