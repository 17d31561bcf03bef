-- ===== src/Runs/Overdue.antt =====
-- Runs past their maximal duration: `checkRunTimeout` and `processRunningRuns` of
-- worker/src/jobs/run-executor.ts.
use final_aldaro.Common.{
  ℕ, ◌+◌, ◌-◌, ◌*◌, ◌≤◌, ◌<◌, ◌≡◌, refl, sym, ◌∙◌, ap, subst, inl, inr, true, not, some, List, [],
  ◌∷◌, ◌==◌, ◌||◌, arith, ceil_div, find_first, find_many, count, take, take-all, length-find_many,
  find_first-find_many, find_first-fits, find_first-update_many, update_many, Bool-cases,
  Option-cases,
}
use final_aldaro.Runs.Rows.{
  Run, RunWorld, Outside, running, timed_out, is_finished, on_run, find_run, run_with_id, for_each,
}
use final_aldaro.Runs.Lifecycle.{Reach-final}
use final_aldaro.Runs.Billing.{mark_reported, send_usage, report_run_billing, clean_up_after}
use final_aldaro.Runs.Stages.{in_status}
use final_aldaro.Runs.Monitor.{
  is_overdue, time_out_row, time_out_run, check_run_timeout, process_running_run,
  process_running_runs,
}
use final_aldaro.Runs.Book.{Found, IsBook}
use final_aldaro.Runs.Turns.{In, process_running_run-Turn}
use final_aldaro.Runs.Loops.{Kept, IsBatch, IsBatch-rest, for_each-Kept, find_many-IsBatch}
use final_aldaro.Runs.Ticks.{in_status-In}

-- The row of a run, in what a report may leave of it.
abbrev IsRowOf : ℕ → Run → RunWorld → Type 0
IsRowOf id r w =
    (s : Run) × (find_run id w ≡ some s)
    × (s.status ≡ r.status)
    × (s.billed_seconds ≡ r.billed_seconds)

send_usage_row :
    (out : Outside) (now id : ℕ) (r : Run) (w : RunWorld)
    → find_run id w ≡ some r
    → IsRowOf id r (send_usage out now r w)
unfolding send_usage
send_usage_row out now id r w found =
    let fits = find_first-fits (run_with_id id) w.runs r found in
    let same : r.id ≡ id = ground arith in
    let marked : find_run id (on_run r.id (mark_reported now) w) ≡ some (mark_reported now r) =
      subst
        (λ k.
          find_first (run_with_id id) (update_many (run_with_id k) (mark_reported now) w.runs)
          ≡ some (mark_reported now r))
        (sym same)
        (find_first-update_many (run_with_id id) (mark_reported now) w.runs r (λ x. refl) found) in
    let skipped : IsRowOf id r w = (r, found, refl, refl) in
    elim (Option-cases (out.customer_of r.user_id)) [
      | inl e ↦ rw (e, send_usage) skipped
      | inr (customer, e) ↦
          elim (Bool-cases
            (r.stripe_usage_reported || (r.billed_seconds == 0 || not (out.takes_meter r.id)))) [
              | inl skip ↦ rw (e, skip, send_usage) skipped
              | inr send ↦ elim (Bool-cases (out.marks_reported r.id)) [
                | inl told ↦
                    rw (e, send, told, send_usage) (mark_reported now r, marked, refl, refl)
                | inr untold ↦ rw (e, send, untold, send_usage) skipped
              ]
            ]
    ]

report_run_billing_row :
    (out : Outside) (now id : ℕ) (r : Run) (w : RunWorld)
    → find_run id w ≡ some r
    → IsRowOf id r (report_run_billing out now id w)
unfolding report_run_billing
report_run_billing_row out now id r w found =
    rw (found, report_run_billing) (send_usage_row out now id r w found)

time_out_run_row :
    (out : Outside) (now : ℕ) (r : Run) (w : RunWorld)
    → Found r w.runs
    → IsRowOf r.id (time_out_row now r r) (time_out_run out now r w)
unfolding time_out_run
time_out_run_row out now r w found =
    report_run_billing_row out now r.id (time_out_row now r r)
      (clean_up_after out "run_timed_out" now r (on_run r.id (time_out_row now r) w))
      (find_first-update_many (run_with_id r.id) (time_out_row now r) w.runs r (λ x. refl) found)

-- When `checkRunTimeout` times a run out, the run's row is in the status timed_out, and its bill
-- is at least its maximal duration, covers the elapsed time and exceeds it by less than a second.
pub check_run_timeout_bill :
    (out : Outside) (now start : ℕ) (r : Run) (w v : RunWorld)
    → Found r w.runs
    → r.started_at ≡ some start
    → check_run_timeout out now r w ≡ some v
    → (s : Run) × (find_run r.id v ≡ some s)
      × (s.status ≡ timed_out)
      × (r.hours_max * 3600 ≤ s.billed_seconds)
      × (now - start ≤ s.billed_seconds * 1000)
      × (s.billed_seconds * 1000 < now - start + 1000)
unfolding check_run_timeout
check_run_timeout_bill out now start r w v found started went =
    let (s, at, status, bill) = time_out_run_row out now r w found in
    let is_v : time_out_run out now r w ≡ v = ground arith in
    let late : r.hours_max * 3600 * 1000 ≤ now - start = ground arith in
    let seconds : s.billed_seconds ≡ ceil_div (now - start) 1000 = ground arith in
    (
      s,
      subst (λ u. find_run r.id u ≡ some s) is_v at,
      status,
      grind (arith, seconds, late),
      grind (arith, seconds),
      grind (arith, seconds),
    )

-- The run has been found in its last status.
abbrev TimedOut : Run → RunWorld → Type 0
TimedOut r w = (s : Run) × (find_run r.id w ≡ some s) × (s.status ≡ timed_out)

TimedOut-Kept : (r : Run) (w v : RunWorld) → Kept w v → TimedOut r w → TimedOut r v
TimedOut-Kept r w v kept (s, at, status) =
    let fits = find_first-fits (run_with_id r.id) w.runs s at in
    let same : s.id ≡ r.id = ground arith in
    let found : Found s w.runs = subst (λ k. find_run k w ≡ some s) (sym same) at in
    let (t, there, own, to) = kept.1 s found in
    let there_r : find_run r.id v ≡ some t =
      subst (λ k. find_run k v ≡ some t) (own ∙ same) there in
    (t, there_r, Reach-final to (ap is_finished status) ∙ status)

module _ (out : Outside) (now : ℕ) where
  process_running_run_overdue :
      (r : Run) (w : RunWorld)
      → is_overdue now r ≡ true
      → Found r w.runs
      → TimedOut r (process_running_run out now r w)
  unfolding process_running_run check_run_timeout
  process_running_run_overdue r w late found =
      let (s, at, status, bill) = time_out_run_row out now r w found in
      rw (late, process_running_run, check_run_timeout) (s, at, status)

  for_each_overdue :
      (rs : List Run) (w : RunWorld) (r : Run)
      → IsBatch (In running) w.runs rs
      → IsBook w.runs w.meter
      → Found r rs
      → Found r w.runs
      → is_overdue now r ≡ true
      → TimedOut r (for_each (process_running_run out now) rs w)
  unfolding for_each
  for_each_overdue [] w r batch b listed found late = cc
  for_each_overdue (x ∷ rs) w r batch b listed found late =
      let turn = process_running_run-Turn out now x w batch.ready.0 b batch.found.0 in
      let v = process_running_run out now x w in
      let rest = IsBatch-rest (In running) x rs w v batch turn in
      elim (Bool-cases (x.id == r.id)) [
        | inl hit ↦
            let same : r ≡ x = ground arith in
            TimedOut-Kept r v (for_each (process_running_run out now) rs v)
              (for_each-Kept (In running) (process_running_run out now)
                (process_running_run-Turn out now) rs v rest turn.book)
              (subst (λ y. TimedOut r (process_running_run out now y w)) same
                (process_running_run_overdue r w late found))
        | inr miss ↦
            for_each_overdue rs v r rest turn.book (ground arith)
              (turn.others r (ground arith) found) late
      ]

  -- Where the books hold and at most 50 runs are running, a running run that is past its maximal
  -- duration is timed out after the stage.
  pub process_running_runs_overdue :
      (w : RunWorld) (r : Run)
      → IsBook w.runs w.meter
      → count (in_status running) w.runs ≤ 50
      → Found r w.runs
      → r.status ≡ running
      → is_overdue now r ≡ true
      → (s : Run) × (find_run r.id (process_running_runs out now w) ≡ some s)
        × (s.status ≡ timed_out)
  unfolding process_running_runs
  process_running_runs_overdue w r b few found status late =
      let rs = find_many (in_status running) w.runs in
      let all : take 50 rs ≡ rs =
        take-all 50 rs
          (subst (λ n. n ≤ 50) (sym (length-find_many (in_status running) w.runs)) few) in
      let listed : Found r rs =
        find_first-find_many (run_with_id r.id) (in_status running) w.runs r (rw status refl)
          found in
      rw (all, process_running_runs)
        (for_each_overdue rs w r
          (find_many-IsBatch (In running) (in_status running) w.runs (in_status-In running)
            b.distinct)
          b listed found late)
