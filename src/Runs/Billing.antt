-- ===== src/Runs/Billing.antt =====
-- How a run ends: `finalizeRun`, `failRun`, `reportRunBilling`, `releaseRunWorkspace`,
-- `enqueueWorkspaceCleanup` of worker/src/jobs/run-executor.ts. Readings of the clock within one tick are
-- equal, and a clock that ran back counts 0 seconds.
use final_aldaro.Common.{
  ℕ, ◌-◌, String, Bool, true, false, not, Option, none, some, ◌∷◌, ◌==◌, ◌||◌, or_else, ceil_div,
  if◌then◌else◌, update, update_many, find_first,
}
use final_aldaro.Cleanup.Rows.{
  Workspace, WorkspaceStatus, Platform, creating, waiting_for_agent, verifying, warm_available,
  assigning, running_assigned, terminating, terminated, failed, workspace_with_id,
}
use final_aldaro.Cleanup.Batch.{enqueue_cleanup}
use final_aldaro.Runs.Rows.{
  Run, RunStatus, RunError, RunWorld, Outside, MeterCall, completed, is_finished, on_run, find_run,
}

-- `Math.ceil((to - from) / 1000)`, 0 where the clock ran back.
abbrev pub seconds_between : ℕ → ℕ → ℕ
seconds_between from to = ceil_div (to - from) 1000

-- The seconds since the start, 0 without one.
abbrev pub seconds_since : Option ℕ → ℕ → ℕ
seconds_since none now = 0
seconds_since (some start) now = seconds_between start now

abbrev pub mark_terminating : String → ℕ → Workspace → Workspace
mark_terminating reason now ws = record ws {
  status = terminating;
  termination_reason = some reason;
  updated_at = now;
}

-- The update throws where the workspace is gone, and the job is then not made.
unfoldable pub enqueue_workspace_cleanup : Outside → String → ℕ → ℕ → Platform → Platform
enqueue_workspace_cleanup out reason now workspace p =
    elim (update (workspace_with_id workspace) (mark_terminating reason now) p.workspaces) [
      | none ↦ p
      | some workspaces ↦
          enqueue_cleanup out.job_id_for reason now workspace (record p { workspaces = workspaces })
    ]

-- `if (run.upstreamInstanceId) await enqueueWorkspaceCleanup(…)`
abbrev pub clean_up_after : Outside → String → ℕ → Run → RunWorld → RunWorld
clean_up_after out reason now r w = record w {
  platform = elim r.upstream_instance_id [
    | none ↦ w.platform
    | some workspace ↦ enqueue_workspace_cleanup out reason now workspace w.platform
  ];
}

abbrev pub mark_reported : ℕ → Run → Run
mark_reported now r = record r { stripe_usage_reported = true; updated_at = now }

abbrev pub meter_call : Run → ℕ → MeterCall
meter_call r customer = record { identifier = r.id; customer = customer; value = r.billed_seconds }

abbrev pub sent_usage : ℕ → Run → RunWorld → RunWorld
sent_usage customer r w = record w { meter = meter_call r customer ∷ w.meter }

-- One meter event, when Stripe takes it, and then the flag, in an update of its own: its error is
-- swallowed, and the next sweep sends the event again.
unfoldable pub send_usage : Outside → ℕ → Run → RunWorld → RunWorld
send_usage out now r w = elim (out.customer_of r.user_id) [
  | none ↦ w
  | some customer ↦
      if r.stripe_usage_reported || (r.billed_seconds == 0 || not (out.takes_meter r.id))
      then w
      else if out.marks_reported r.id
      then on_run r.id (mark_reported now) (sent_usage customer r w)
      else sent_usage customer r w
]

unfoldable pub report_run_billing : Outside → ℕ → ℕ → RunWorld → RunWorld
report_run_billing out now id w = elim (find_run id w) [
  | none ↦ w
  | some r ↦ send_usage out now r w
]

-- The workspace goes back to the pool when it is of the pool, or else to the cleanup.
abbrev pub return_to_pool : ℕ → Workspace → Workspace
return_to_pool now ws = record ws {
  status = warm_available;
  assigned_user_id = none;
  assigned_at = none;
  updated_at = now;
}

-- `['TERMINATED', 'TERMINATING', 'FAILED'].includes(workspace.status)`
abbrev pub is_gone : WorkspaceStatus → Bool
is_gone creating = false
is_gone waiting_for_agent = false
is_gone verifying = false
is_gone warm_available = false
is_gone assigning = false
is_gone running_assigned = false
is_gone terminating = true
is_gone terminated = true
is_gone failed = true

unfoldable pub release_workspace : Outside → ℕ → Workspace → Platform → Platform
release_workspace out now ws p =
    if is_gone ws.status
    then p
    else if ws.is_warm_pool
    then record p {
      workspaces = update_many (workspace_with_id ws.id) (return_to_pool now) p.workspaces;
    }
    else enqueue_workspace_cleanup out "run_completed" now ws.id p

unfoldable pub release_run_workspace : Outside → ℕ → ℕ → Platform → Platform
release_run_workspace out now workspace p =
    elim (find_first (workspace_with_id workspace) p.workspaces) [
      | none ↦ p
      | some ws ↦ release_workspace out now ws p
    ]

-- `if (run.upstreamInstanceId) await releaseRunWorkspace(…)`
abbrev pub release_after : Outside → ℕ → Run → RunWorld → RunWorld
release_after out now r w = record w {
  platform = elim r.upstream_instance_id [
    | none ↦ w.platform
    | some workspace ↦ release_run_workspace out now workspace w.platform
  ];
}

-- `run.billedSeconds || 0`, or the seconds from the start to the finish.
unfoldable pub final_seconds : ℕ → Run → ℕ
final_seconds now r =
    if r.billed_seconds == 0
    then seconds_since r.started_at (or_else r.finished_at now)
    else r.billed_seconds

abbrev pub finish_row : ℕ → RunStatus → ℕ → Run → Run → Run
finish_row now status seconds snapshot r = record r {
  status = status;
  finished_at = some (or_else snapshot.finished_at now);
  infra_finished_at = some (or_else snapshot.infra_finished_at now);
  billed_seconds = seconds;
  updated_at = now;
}

unfoldable pub finalize_run : Outside → ℕ → Run → RunWorld → RunWorld
finalize_run out now r w =
    let status = if is_finished r.status then r.status else completed in
    release_after out now r (
      report_run_billing out now r.id
        (on_run r.id (finish_row now status (final_seconds now r) r) w))

abbrev pub fail_row : ℕ → RunError → ℕ → Run → Run
fail_row now error seconds r = record r {
  status = RunStatus.failed;
  error_message = some error;
  finished_at = some now;
  infra_finished_at = some now;
  billed_seconds = seconds;
  updated_at = now;
}

unfoldable pub fail_run : Outside → ℕ → RunError → Run → RunWorld → RunWorld
fail_run out now error r w = report_run_billing out now r.id (
    clean_up_after out "run_failed" now r
      (on_run r.id (fail_row now error (seconds_since r.started_at now)) w))
