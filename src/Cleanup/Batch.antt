-- ===== src/Cleanup/Batch.antt =====
-- Which cleanups are due, and which workspaces are stale: `enqueueStaleWorkspaceCleanup` and
-- `processWorkspaceCleanupJobs` of worker/src/jobs/workspace-cleanup.ts.
use Prim.Native.String.{String}
use final_aldaro.Common.{
  ℕ, ◌+◌, Bool, true, false, none, some, List, [], ◌∷◌, ◌&&◌, ltb, take, find_many, order_by,
  upsert, update_many,
}
use final_aldaro.Billing.Metering.{is_ready}
use final_aldaro.Cleanup.Rows.{
  Workspace, WorkspaceStatus, CleanupJob, Platform, creating, waiting_for_agent, verifying,
  warm_available, assigning, running_assigned, terminating, terminated, failed, pending, is_open,
  job_of, workspace_with_id,
}
use final_aldaro.Cleanup.Attempt.{Run, Act, and_then}
use final_aldaro.Cleanup.Run.{process_cleanup_job}

abbrev pub stale_terminating_ms : ℕ
stale_terminating_ms = 600_000

abbrev pub stale_creating_ms : ℕ
stale_creating_ms = 900_000

abbrev pub is_terminating : WorkspaceStatus → Bool
is_terminating creating = false
is_terminating waiting_for_agent = false
is_terminating verifying = false
is_terminating warm_available = false
is_terminating assigning = false
is_terminating running_assigned = false
is_terminating terminating = true
is_terminating terminated = false
is_terminating failed = false

abbrev pub is_creating : WorkspaceStatus → Bool
is_creating creating = true
is_creating waiting_for_agent = false
is_creating verifying = false
is_creating warm_available = false
is_creating assigning = false
is_creating running_assigned = false
is_creating terminating = false
is_creating terminated = false
is_creating failed = false

-- `updatedAt: { lt: now - …_MS }`
unfoldable pub stale : (WorkspaceStatus → Bool) → ℕ → ℕ → List Workspace → List Workspace
stale is_status ms now workspaces =
    take 100 (find_many (λ ws. is_status ws.status && ltb (ws.updated_at + ms) now) workspaces)

abbrev pub reopen_job : String → ℕ → CleanupJob → CleanupJob
reopen_job reason now j = record j {
  status = pending;
  next_attempt_at = some now;
  reason_code = reason;
}

abbrev pub new_job : ℕ → ℕ → String → ℕ → CleanupJob
new_job id workspace reason now = record {
  id = id;
  workspace_id = workspace;
  reason_code = reason;
  status = pending;
  attempt_count = 0;
  max_attempts = 20;
  last_attempt_at = none;
  next_attempt_at = some now;
  last_error_code = none;
  last_error_message = none;
  created_at = now;
  completed_at = none;
}

-- `ids` are the ids that the database makes for new jobs.
unfoldable pub enqueue_cleanup : (ℕ → ℕ) → String → ℕ → ℕ → Platform → Platform
enqueue_cleanup ids reason now workspace p = record p {
  jobs =
      upsert (job_of workspace) (reopen_job reason now)
        (new_job (ids workspace) workspace reason now) p.jobs;
}

unfoldable pub enqueue_terminating : (ℕ → ℕ) → ℕ → List Workspace → Platform → Platform
enqueue_terminating ids now [] p = p
enqueue_terminating ids now (ws ∷ wss) p =
    enqueue_terminating ids now wss (enqueue_cleanup ids "stale_terminating_reconcile" now ws.id p)

abbrev pub give_up : ℕ → Workspace → Workspace
give_up now ws = record ws {
  status = terminating;
  termination_reason = some "stale_creating_reconcile";
  updated_at = now;
}

unfoldable pub enqueue_creating : (ℕ → ℕ) → ℕ → List Workspace → Platform → Platform
enqueue_creating ids now [] p = p
enqueue_creating ids now (ws ∷ wss) p = enqueue_creating ids now wss (
    enqueue_cleanup ids "stale_creating_reconcile" now ws.id
      (record p { workspaces = update_many (workspace_with_id ws.id) (give_up now) p.workspaces }))

-- Both lists are read before either loop.
unfoldable pub enqueue_stale_workspace_cleanup : (ℕ → ℕ) → ℕ → Platform → Platform
enqueue_stale_workspace_cleanup ids now p =
    enqueue_creating ids now (stale is_creating stale_creating_ms now p.workspaces)
      (enqueue_terminating ids now (stale is_terminating stale_terminating_ms now p.workspaces) p)

unfoldable pub due_jobs : ℕ → Platform → List CleanupJob
due_jobs now p = take 20 (
    order_by (λ j. j.created_at)
      (find_many (λ j. is_open j.status && is_ready now j.next_attempt_at) p.jobs))

-- A job that throws leaves the loop, with what was written before.
unfoldable pub process_jobs : (CleanupJob → Run) → List CleanupJob → Act
process_jobs run [] p = (p, none)
process_jobs run (job ∷ jobs) p =
    and_then (process_cleanup_job (run job) job) (process_jobs run jobs) p

unfoldable pub process_workspace_cleanup_jobs : (ℕ → ℕ) → (CleanupJob → Run) → ℕ → Act
process_workspace_cleanup_jobs ids run now p =
    let enqueued = enqueue_stale_workspace_cleanup ids now p in
    process_jobs run (due_jobs now enqueued) enqueued
