-- ===== src/Protocol/FlowControl/Runs.antt =====
-- Concrete windows, and the theorems at concrete inputs.
use tnp.Prelude.{ℕ, ◌+◌, ◌≤◌, ◌≡◌, refl, List, [], ◌∷◌, arith, whole, not_whole}
use tnp.Protocol.FlowControl.{FlowWindow, consume_both, grant_both}
use tnp.Protocol.FlowControl.Shared.{Circuit, Call, run, step, run-balance}

abbrev window : ℕ → FlowWindow
window n = record { available = n; initial = 100 }

abbrev circuit : Circuit
circuit = record { window = window 90; streams = window 40 ∷ window 70 ∷ [] }

abbrev calls : List Call
calls =
    Call.consume 0 (whole 30)
    ∷ Call.consume 1 (whole 65)
    ∷ Call.grant 0 (whole 20)
    ∷ Call.consume 1 not_whole
    ∷ Call.consume 1 (whole 65)
    ∷ []

run-calls :
    run circuit calls ≡ (record { window = window 15; streams = window 30 ∷ window 5 ∷ [] }, 95, 20)
unfolding run step consume_both grant_both
run-calls = refl

run-balance_example :
    (run circuit calls).1 + (run circuit calls).0.window.available ≤ 90 + (run circuit calls).2
run-balance_example = run-balance circuit calls (omega arith)
