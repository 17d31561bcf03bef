-- ===== src/Runs/Ticks.antt =====
-- The books under `runExecutorTick` of worker/src/jobs/run-executor.ts.
use final_aldaro.Common.{ℕ, ◌≡◌, Bool, true, take, find_many, order_by, arith}
use final_aldaro.Runs.Rows.{
  Run, RunStatus, RunWorld, Outside, queued, provisioning, initializing, running,
  uploading_artifacts, timed_out, same_status, for_each,
}
use final_aldaro.Runs.Billing.{report_run_billing}
use final_aldaro.Runs.Stages.{
  in_status, with_workspace, process_queued_run, process_queued_runs, process_provisioning_run,
  process_provisioning_runs, process_initializing_run, process_initializing_runs,
}
use final_aldaro.Runs.Monitor.{
  process_running_run, process_running_runs, process_uploading_run,
  process_uploading_artifacts_runs, needs_cleanup, process_timed_out_run, process_timed_out_runs,
  is_unreported, process_unreported_run_billing, Stage, queue, provision, initialize, monitor,
  upload, clean_up, sweep, run_stage,
}
use final_aldaro.Runs.Book.{IsBook}
use final_aldaro.Runs.Billed.{report_run_billing-Turn}
use final_aldaro.Runs.Turns.{
  Keeps, In, IsCalm, process_queued_run-Turn, process_provisioning_run-Turn,
  process_initializing_run-Turn, process_running_run-Turn, process_uploading_run-Turn,
  process_timed_out_run-Turn,
}
use final_aldaro.Runs.Loops.{Kept, for_each-Kept, find_many-IsBatch, take-IsBatch, order_by-IsBatch}

same_status-equal : (s t : RunStatus) → same_status s t ≡ true → s ≡ t
same_status-equal s t e = ground arith

pub in_status-In : (s : RunStatus) (r : Run) → in_status s r ≡ true → In s r
in_status-In s r e = same_status-equal r.status s e

with_workspace-In : (s : RunStatus) (r : Run) → with_workspace s r ≡ true → In s r
with_workspace-In s r e = in_status-In s r (ground arith)

needs_cleanup-In : (r : Run) → needs_cleanup r ≡ true → In timed_out r
needs_cleanup-In r e = in_status-In timed_out r (ground arith)

-- A stage that takes the first runs that fit.
stage :
    (Ready : Run → Type 0) (step : Run → RunWorld → RunWorld) (keeps : Keeps Ready step) (n : ℕ)
    (p : Run → Bool) (w : RunWorld)
    → ((r : Run) → p r ≡ true → Ready r)
    → IsBook w.runs w.meter
    → Kept w (for_each step (take n (find_many p w.runs)) w)
stage Ready step keeps n p w fits b =
    for_each-Kept Ready step keeps (take n (find_many p w.runs)) w
      (take-IsBatch Ready n w.runs (find_many p w.runs)
        (find_many-IsBatch Ready p w.runs fits b.distinct))
      b

-- A stage that takes the oldest ones.
ordered_stage :
    (Ready : Run → Type 0) (step : Run → RunWorld → RunWorld) (keeps : Keeps Ready step) (n : ℕ)
    (key : Run → ℕ) (p : Run → Bool) (w : RunWorld)
    → ((r : Run) → p r ≡ true → Ready r)
    → IsBook w.runs w.meter
    → Kept w (for_each step (take n (order_by key (find_many p w.runs))) w)
ordered_stage Ready step keeps n key p w fits b =
    for_each-Kept Ready step keeps (take n (order_by key (find_many p w.runs))) w
      (take-IsBatch Ready n w.runs (order_by key (find_many p w.runs)) (
        order_by-IsBatch Ready key w.runs (find_many p w.runs)
          (find_many-IsBatch Ready p w.runs fits b.distinct)))
      b

-- Over a stage, the books hold as before, and no run is lost or goes back.
pub run_stage-Kept :
    (s : Stage) (out : Outside) (now : ℕ) (w : RunWorld)
    → IsCalm out
    → IsBook w.runs w.meter
    → Kept w (run_stage s out now w)
unfolding run_stage process_queued_runs process_provisioning_runs process_initializing_runs
    process_running_runs process_uploading_artifacts_runs process_timed_out_runs
    process_unreported_run_billing
run_stage-Kept queue out now w calm b =
    ordered_stage (In queued) (process_queued_run out now) (process_queued_run-Turn out now) 10
      (λ r. r.created_at) (in_status queued) w (in_status-In queued) b
run_stage-Kept provision out now w calm b =
    stage (In provisioning) (process_provisioning_run now) (process_provisioning_run-Turn out now)
      20 (with_workspace provisioning) w (with_workspace-In provisioning) b
run_stage-Kept initialize out now w calm b =
    stage (In initializing) (process_initializing_run out now)
      (process_initializing_run-Turn out now calm) 10 (with_workspace initializing) w
      (with_workspace-In initializing) b
run_stage-Kept monitor out now w calm b =
    stage (In running) (process_running_run out now) (process_running_run-Turn out now) 50
      (in_status running) w (in_status-In running) b
run_stage-Kept upload out now w calm b =
    stage (In uploading_artifacts) (process_uploading_run out now)
      (process_uploading_run-Turn out now) 20 (in_status uploading_artifacts) w
      (in_status-In uploading_artifacts) b
run_stage-Kept clean_up out now w calm b =
    stage (In timed_out) (process_timed_out_run out now) (process_timed_out_run-Turn out now) 10
      needs_cleanup w needs_cleanup-In b
run_stage-Kept sweep out now w calm b =
    ordered_stage (λ r. Unit) (λ r. report_run_billing out now r.id)
      (λ r v ready b found. report_run_billing-Turn out now r.id v b) 25 (λ r. r.updated_at)
      (is_unreported out) w (λ r e. tt) b
