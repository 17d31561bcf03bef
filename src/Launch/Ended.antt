-- ===== src/Launch/Ended.antt =====
-- What `terminate` comes to on each of its branches.
use final_aldaro.Common.{
  ℕ, ◌≡◌, refl, inl, inr, true, false, Option, none, some, List, [], ◌∷◌, arith, All, find_first,
  find_first-update_many, upsert, Bool-cases, is_some, ==_refl,
}
use final_aldaro.Billing.Close.{Surroundings, finalize_usage_sessions}
use final_aldaro.Billing.Ledger.{IsLedger}
use final_aldaro.Billing.Rows.{UsageSession, Ledger, Failure, running_in}
use final_aldaro.Billing.Same.{end_usage_session-finalize_usage_sessions}
use final_aldaro.Billing.Worker.{finalize_usage_sessions-closes}
use final_aldaro.Budget.Idle.{clear_job}
use final_aldaro.Cleanup.Batch.{new_job}
use final_aldaro.Cleanup.Rows.{
  Workspace, CleanupJob, Platform, terminating, terminated, pending, workspace_with_id, job_of,
}
use final_aldaro.Launch.Terminate.{
  Answer, answered, is_terminal, owned, terminate, terminate_found, terminate_directly, after_close,
  queue_termination, end_row, stop_row,
}

-- A job for the worker that is due at once, with nothing left of an earlier attempt.
pub record IsDue (now workspace : ℕ) (jobs : List CleanupJob) : Type 0 where
  pub job : CleanupJob
  pub found : find_first (job_of workspace) jobs ≡ some job
  pub waiting : job.status ≡ pending
  pub due : job.next_attempt_at ≡ some now
  pub reset : job.completed_at ≡ none

upsert-IsDue :
    (job_id now workspace : ℕ) (jobs : List CleanupJob)
    → IsDue now workspace (
        upsert
          (job_of workspace)
          (clear_job "manual_terminate" now)
          (new_job job_id workspace "manual_terminate" now)
          jobs)
upsert-IsDue job_id now w [] = record {
  job = new_job job_id w "manual_terminate" now;
  found = rw (==_refl w) refl;
  waiting = refl;
  due = refl;
  reset = refl;
}
upsert-IsDue job_id now w (j ∷ jobs) = elim (Bool-cases (job_of w j)) [
  | inl own ↦ rw own (record {
    job = clear_job "manual_terminate" now j;
    found = rw own refl;
    waiting = refl;
    due = refl;
    reset = refl;
  })
  | inr other ↦
      let rest = upsert-IsDue job_id now w jobs in
      rw other (record {
        job = rest.job;
        found = rw other rest.found;
        waiting = rest.waiting;
        due = rest.due;
        reset = rest.reset;
      })
]

-- What the tables and the answer say after a termination of a workspace that had not ended.
pub data IsEnding (now : ℕ) (ws : Workspace) (p : Platform) : Answer → Type 0 where
  queued :
      is_some ws.proxmox_vmid ≡ true
      → find_first (workspace_with_id ws.id) p.workspaces ≡ some (stop_row now ws)
      → IsDue now ws.id p.jobs
      → IsEnding now ws p (answered terminating true false)
  ended :
      is_some ws.proxmox_vmid ≡ false
      → find_first (workspace_with_id ws.id) p.workspaces ≡ some (end_row now ws)
      → All (λ s. running_in ws.id s ≡ false) p.ledger.sessions
      → IsLedger p.ledger
      → IsEnding now ws p (answered terminated false false)

queue_termination-IsEnding :
    (job_id now : ℕ) (ws : Workspace) (p : Platform)
    → find_first (workspace_with_id ws.id) p.workspaces ≡ some ws
    → is_some ws.proxmox_vmid ≡ true
    → IsEnding now ws
        (queue_termination job_id now ws.id p).0
        (queue_termination job_id now ws.id p).1
unfolding queue_termination
queue_termination-IsEnding job_id now ws p there vm =
    queued vm
      (find_first-update_many (workspace_with_id ws.id) (stop_row now) p.workspaces ws (λ x. refl)
        there)
      (upsert-IsDue job_id now ws.id p.jobs)

after_close-IsEnding :
    (now : ℕ) (ws : Workspace) (p : Platform) (x : Ledger × Option Failure)
    → find_first (workspace_with_id ws.id) p.workspaces ≡ some ws
    → is_some ws.proxmox_vmid ≡ false
    → (x.1 ≡ none) × All (λ s. running_in ws.id s ≡ false) x.0.sessions × IsLedger x.0
    → IsEnding now ws (after_close now ws.id p x).0 (after_close now ws.id p x).1
unfolding after_close
after_close-IsEnding now ws p (l, none) there no_vm (fine, idle, tables) =
    ended no_vm
      (find_first-update_many (workspace_with_id ws.id) (end_row now) p.workspaces ws (λ x. refl)
        there)
      idle tables
after_close-IsEnding now ws p (l, some f) there no_vm (fine, idle, tables) = absurd (ground arith)

terminate_directly-IsEnding :
    (s : Surroundings) (now : ℕ) (ws : Workspace) (p : Platform)
    → find_first (workspace_with_id ws.id) p.workspaces ≡ some ws
    → is_some ws.proxmox_vmid ≡ false
    → ((x : UsageSession) → s.fault x ≡ none)
    → IsLedger p.ledger
    → IsEnding now ws (terminate_directly s now ws.id p).0 (terminate_directly s now ws.id p).1
unfolding terminate_directly
terminate_directly-IsEnding s now ws p there no_vm clear v =
    rw (end_usage_session-finalize_usage_sessions s ws.id p.ledger v, terminate_directly)
      (after_close-IsEnding now ws p (finalize_usage_sessions s ws.id p.ledger) there no_vm
        (finalize_usage_sessions-closes s ws.id p.ledger clear v))

-- For a workspace of the user that has not ended, on billing tables that are in step and where the
-- database takes the close, termination either marks it as terminating and leaves a pending
-- cleanup job that is due at once with no earlier completion (it has a machine), or marks it as
-- terminated, leaves no running session in it and keeps the billing tables in step (it has none).
pub terminate-IsEnding :
    (s : Surroundings) (job_id now workspace user : ℕ) (ws : Workspace) (p : Platform)
    → find_first (owned workspace user) p.workspaces ≡ some ws
    → find_first (workspace_with_id ws.id) p.workspaces ≡ some ws
    → is_terminal ws.status ≡ false
    → ((x : UsageSession) → s.fault x ≡ none)
    → IsLedger p.ledger
    → IsEnding now ws
        (terminate s job_id now workspace user p).0
        (terminate s job_id now workspace user p).1
unfolding terminate terminate_found
terminate-IsEnding s job_id now workspace user ws p found there active clear v =
    rw (found, terminate)
      (elim (Bool-cases (is_some ws.proxmox_vmid)) [
        | inl vm ↦
            rw (active, terminate_found)
              (rw vm (queue_termination-IsEnding job_id now ws p there vm))
        | inr no_vm ↦
            rw (active, terminate_found)
              (rw no_vm (terminate_directly-IsEnding s now ws p there no_vm clear v))
      ])
