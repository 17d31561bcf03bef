-- ===== src/Fleet/Waiting.antt =====
-- `processWaitingWorkspaces` of worker/src/jobs/warm-pool.ts for one workspace. The call that starts a custom image
-- changes no table.
use final_aldaro.Common.{
  ℕ, ◌-◌, Bool, true, false, not, Option, none, some, ◌&&◌, if◌then◌else◌, ltb, or_else, is_some,
  find_first, upsert,
}
use final_aldaro.Billing.Rows.{named}
use final_aldaro.Billing.Start.{start_cold_session}
use final_aldaro.Cleanup.Batch.{new_job, reopen_job}
use final_aldaro.Cleanup.Rows.{
  Workspace, Platform, warm_available, running_assigned, terminating, workspace_with_id, job_of,
}
use final_aldaro.Cleanup.Attempt.{has_vm}
use final_aldaro.Fleet.Rows.{Fleet}
use final_aldaro.Fleet.Claim.{on_platform, change_workspace}

-- What Proxmox says of the address of a machine.
pub data Address : Type 0 where
  address : Option ℕ → Address
  unreachable : Address

-- The time of each step, the answer of Proxmox, and the ids of rows that are made.
pub record Watch : Type 0 where
  pub ip : Address
  pub now : ℕ
  pub session_id : ℕ
  pub job_id : ℕ

abbrev pub ip_row : (ip now : ℕ) → Workspace → Workspace
ip_row ip now ws = record ws {
  vm_internal_ip = some ip;
  ip_discovered_at = some now;
  updated_at = now;
}

-- An address of 0 is the empty text.
abbrev pub has_ip : Workspace → Bool
has_ip ws = ltb 0 (or_else ws.vm_internal_ip 0)

unfoldable pub note_ip : Watch → Workspace → Option ℕ → Fleet → Fleet
note_ip t ws none fl = fl
note_ip t ws (some ip) fl =
    if ltb 0 ip && not (has_ip ws) then change_workspace ws.id (ip_row ip t.now) fl else fl

-- A heartbeat of the last 30 seconds.
abbrev pub beats : (now : ℕ) → Option ℕ → Bool
beats now none = false
beats now (some beat) = ltb (now - beat) 30_000

abbrev pub ready_row : ℕ → Workspace → Workspace → Workspace
ready_row now fresh ws = record ws {
  status = if fresh.is_warm_pool then warm_available else running_assigned;
  verified = true;
  verification_score = some 100;
  agent_registered_at =
      if is_some fresh.agent_registered_at then ws.agent_registered_at else some now;
  started_at =
      if not fresh.is_warm_pool && not (is_some fresh.started_at) then some now else ws.started_at;
  updated_at = now;
}

unfoldable pub bill_cold : Watch → Workspace → Option ℕ → Fleet → Fleet
bill_cold t fresh none fl = fl
bill_cold t fresh (some user) fl =
    if fresh.is_warm_pool
    then fl
    else on_platform
        (λ (p : Platform). record p {
          ledger =
              start_cold_session t.session_id user fresh.id fresh.gpu_type
                fresh.locked_spot_price_cents t.now p.ledger fl.catalog p.ledger;
        })
        fl

unfoldable pub make_ready : Watch → Option Workspace → Fleet → Fleet
unfolding bill_cold
make_ready t none fl = fl
make_ready t (some fresh) fl =
    if has_ip fresh && beats t.now fresh.last_agent_heartbeat_at
    then bill_cold t fresh fresh.assigned_user_id
        (change_workspace fresh.id (ready_row t.now fresh) fl)
    else fl

abbrev pub timeout_row : ℕ → Workspace → Workspace
timeout_row now ws = record ws {
  status = terminating;
  failed_at = some now;
  last_error_code = some (named "AGENT_TIMEOUT");
  termination_reason = some "agent_timeout";
  updated_at = now;
}

-- Since the boot, or else since the row was made: more than five minutes.
abbrev pub waited_too_long : ℕ → Workspace → Bool
waited_too_long now ws = ltb 300_000 (now - or_else ws.boot_completed_at ws.created_at)

abbrev pub enqueue_timeout : Watch → ℕ → Platform → Platform
enqueue_timeout t w p = record p {
  jobs =
      upsert (job_of w) (reopen_job "agent_timeout" t.now)
        (new_job t.job_id w "agent_timeout" t.now) p.jobs;
}

unfoldable pub give_up_waiting : Watch → Workspace → Fleet → Fleet
give_up_waiting t ws fl =
    if waited_too_long t.now ws
    then on_platform (enqueue_timeout t ws.id) (change_workspace ws.id (timeout_row t.now) fl)
    else fl

-- A workspace that is gone when it is read again is passed over.
unfoldable pub check_waiting : Watch → Workspace → Option ℕ → Fleet → Fleet
unfolding note_ip make_ready give_up_waiting
check_waiting t ws ip fl =
    let seen = note_ip t ws ip fl in
    let fresh = find_first (workspace_with_id ws.id) seen.platform.workspaces in
    if is_some fresh then give_up_waiting t ws (make_ready t fresh seen) else seen

-- The workspace is the row as it was read.
unfoldable pub process_waiting_workspace : Watch → Workspace → Fleet → Fleet
unfolding check_waiting
process_waiting_workspace t ws fl = elim t.ip [
  | unreachable ↦ fl
  | address ip ↦ if has_vm ws then check_waiting t ws ip fl else fl
]
