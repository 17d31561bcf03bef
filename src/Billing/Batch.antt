-- ===== src/Billing/Batch.antt =====
-- One run of `processWorkspaceMeterEvents` (worker/src/jobs/workspace-metering.ts): nothing without
-- a Stripe key; otherwise the due events in turn, oldest first. An update that finds no row throws
-- and ends the run.
use final_aldaro.Common.{ℕ, Bool, none, some, List, [], ◌∷◌, ◌++◌, if◌then◌else◌}
use final_aldaro.Billing.Rows.{MeterEvent, Ledger}
use final_aldaro.Billing.Metering.{MeterRequest, MeterWorld, process_meter_event, due_events}

-- Each event meets its own answers.
unfoldable pub process_each :
    (MeterEvent → MeterWorld) → List MeterEvent → Ledger → Ledger × List MeterRequest
process_each w [] l = (l, [])
process_each w (e ∷ es) l =
    let (after, sent) = process_meter_event (w e) e l in
    elim after [
      | none ↦ (l, sent)
      | some l' ↦ let (last, rest) = process_each w es l' in (last, sent ++ rest)
    ]

unfoldable pub process_workspace_meter_events :
    Bool → (MeterEvent → MeterWorld) → ℕ → Ledger → Ledger × List MeterRequest
process_workspace_meter_events has_key w now l =
    if has_key then process_each w (due_events now l) l else (l, [])
