-- ===== src/Budget/Idle.antt =====
-- `idleTerminationTick` of worker/src/jobs/idle-termination.ts. The limit of AUTO_TERMINATE_IDLE_MINUTES is a
-- parameter, and ages are compared in milliseconds.
use final_aldaro.Common.{
  ℕ, String, ◌-◌, ◌*◌, Bool, true, false, Option, none, some, List, [], ◌∷◌, ◌&&◌, if◌then◌else◌,
  ltb, find_many, update, upsert,
}
use final_aldaro.Cleanup.Rows.{
  Workspace, WorkspaceStatus, Platform, CleanupJob, creating, waiting_for_agent, verifying,
  warm_available, assigning, running_assigned, terminating, terminated, failed, workspace_with_id,
  job_of,
}
use final_aldaro.Cleanup.Batch.{new_job, reopen_job}

abbrev pub is_assigned : WorkspaceStatus → Bool
is_assigned creating = false
is_assigned waiting_for_agent = false
is_assigned verifying = false
is_assigned warm_available = false
is_assigned assigning = false
is_assigned running_assigned = true
is_assigned terminating = false
is_assigned terminated = false
is_assigned failed = false

-- More than so many minutes since a time.
abbrev pub older_than : (minutes now since : ℕ) → Bool
older_than minutes now since = ltb (minutes * 60_000) (now - since)

unfoldable pub agent_reason : ℕ → Workspace → Option String
agent_reason now ws = elim ws.last_agent_heartbeat_at [
  | some beat ↦ if older_than 5 now beat then some "dead_agent" else none
  | none ↦ if older_than 10 now ws.created_at then some "agent_missing" else none
]

unfoldable pub idle_reason : (limit now : ℕ) → Workspace → Option String
idle_reason limit now ws = elim ws.last_gpu_utilization_pct [
  | none ↦ none
  | some pct ↦ elim ws.assigned_at [
    | none ↦ none
    | some start ↦ if ltb pct 5 && older_than limit now start then some "idle_timeout" else none
  ]
]

unfoldable pub reason_to_stop : (limit now : ℕ) → Workspace → Option String
reason_to_stop limit now ws = elim (agent_reason now ws) [
  | none ↦ idle_reason limit now ws
  | some reason ↦ some reason
]

abbrev pub idle_row : String → ℕ → Workspace → Workspace
idle_row reason now ws = record ws {
  status = terminating;
  termination_reason = some reason;
  cleanup_next_retry_at = some now;
  updated_at = now;
}

abbrev pub clear_job : String → ℕ → CleanupJob → CleanupJob
clear_job reason now j = record (reopen_job reason now j) {
  completed_at = none;
  last_error_code = none;
  last_error_message = none;
}

-- Both writes, or none where the workspace is gone.
unfoldable pub enqueue_cleanup_job :
    (ℕ → ℕ) → String → (now workspace : ℕ) → Platform → Option Platform
enqueue_cleanup_job ids reason now workspace p =
    elim (update (workspace_with_id workspace) (idle_row reason now) p.workspaces) [
      | none ↦ none
      | some workspaces ↦ some (record p {
        workspaces = workspaces;
        jobs =
            upsert (job_of workspace) (clear_job reason now)
              (new_job (ids workspace) workspace reason now) p.jobs;
      })
    ]

-- An error leaves the loop.
unfoldable pub stop_idle_each : (ℕ → ℕ) → (limit now : ℕ) → List Workspace → Platform → Platform
stop_idle_each ids limit now [] p = p
stop_idle_each ids limit now (ws ∷ wss) p = elim (reason_to_stop limit now ws) [
  | none ↦ stop_idle_each ids limit now wss p
  | some reason ↦ elim (enqueue_cleanup_job ids reason now ws.id p) [
    | none ↦ p
    | some q ↦ stop_idle_each ids limit now wss q
  ]
]

unfoldable pub idle_termination_tick : (ℕ → ℕ) → (limit now : ℕ) → Platform → Platform
idle_termination_tick ids limit now p =
    stop_idle_each ids limit now (find_many (λ ws. is_assigned ws.status) p.workspaces) p
