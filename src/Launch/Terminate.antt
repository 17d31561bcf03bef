-- ===== src/Launch/Terminate.antt =====
-- Termination on behalf of the user: `terminate` of apps/api/src/services/workspaceService.ts.
use final_aldaro.Common.{
  ℕ, Bool, true, false, Option, none, some, ◌==◌, ◌&&◌, is_some, if◌then◌else◌, find_first,
  update_many, upsert,
}
use final_aldaro.Billing.Close.{Surroundings, end_usage_session}
use final_aldaro.Billing.Rows.{Ledger, Failure}
use final_aldaro.Budget.Idle.{clear_job}
use final_aldaro.Budget.Monitor.{owned_by_user}
use final_aldaro.Cleanup.Batch.{new_job}
use final_aldaro.Cleanup.Rows.{
  Workspace, WorkspaceStatus, Platform, creating, waiting_for_agent, verifying, warm_available,
  assigning, running_assigned, terminating, terminated, failed, workspace_with_id, job_of,
}

-- `TERMINAL_WORKSPACE_STATUSES`
abbrev pub is_terminal : WorkspaceStatus → Bool
is_terminal creating = false
is_terminal waiting_for_agent = false
is_terminal verifying = false
is_terminal warm_available = false
is_terminal assigning = false
is_terminal running_assigned = false
is_terminal terminating = false
is_terminal terminated = true
is_terminal failed = true

pub data Answer : Type 0 where
  not_found : Answer
  answered : (status : WorkspaceStatus) (queued already_final : Bool) → Answer
  -- the close of the session failed
  threw : Failure → Answer

abbrev pub owned : (workspace user : ℕ) → Workspace → Bool
owned workspace user ws = ws.id == workspace && owned_by_user user ws

abbrev pub end_row : ℕ → Workspace → Workspace
end_row now ws = record ws {
  status = terminated;
  termination_reason = some "manual";
  terminated_at = some now;
  updated_at = now;
}

abbrev pub stop_row : ℕ → Workspace → Workspace
stop_row now ws = record ws {
  status = terminating;
  termination_reason = some "manual";
  cleanup_next_retry_at = some now;
  updated_at = now;
}

abbrev pub mark_terminated : (now workspace : ℕ) → Platform → Platform
mark_terminated now w p = record p {
  workspaces = update_many (workspace_with_id w) (end_row now) p.workspaces;
}

unfoldable pub after_close :
    (now workspace : ℕ) → Platform → Ledger × Option Failure → Platform × Answer
after_close now w p (l, none) =
    (mark_terminated now w (record p { ledger = l }), answered terminated false false)
after_close now w p (l, some f) = (record p { ledger = l }, threw f)

-- Without a machine: the session is closed, and the workspace has ended.
unfoldable pub terminate_directly :
    Surroundings → (now workspace : ℕ) → Platform → Platform × Answer
unfolding after_close
terminate_directly s now w p = after_close now w p (end_usage_session s w p.ledger)

-- With a machine: the worker is to take it down.
unfoldable pub queue_termination : (job_id now workspace : ℕ) → Platform → Platform × Answer
queue_termination job_id now w p = (
  record p {
    workspaces = update_many (workspace_with_id w) (stop_row now) p.workspaces;
    jobs =
        upsert (job_of w) (clear_job "manual_terminate" now)
          (new_job job_id w "manual_terminate" now) p.jobs;
  },
  answered terminating true false,
)

unfoldable pub terminate_found :
    Surroundings → (job_id now : ℕ) → Workspace → Platform → Platform × Answer
unfolding terminate_directly queue_termination
terminate_found s job_id now ws p =
    if is_terminal ws.status
    then (p, answered ws.status false true)
    else if is_some ws.proxmox_vmid
    then queue_termination job_id now ws.id p
    else terminate_directly s now ws.id p

unfoldable pub terminate :
    Surroundings → (job_id now workspace user : ℕ) → Platform → Platform × Answer
unfolding terminate_found
terminate s job_id now workspace user p = elim (find_first (owned workspace user) p.workspaces) [
  | none ↦ (p, not_found)
  | some ws ↦ terminate_found s job_id now ws p
]
