-- ===== src/Runs/Stages.antt =====
-- The stages of a tick: `runExecutorTick` of worker/src/jobs/run-executor.ts. A stage reads its runs
-- first and then goes through them. The texts of errors are kept whole where the source cuts them,
-- and without the ids and addresses that it fills in.
use final_aldaro.Common.{
  ℕ, String, Bool, false, not, Option, none, some, List, ◌∷◌, ◌==◌, ◌&&◌, is_some, if◌then◌else◌,
  take, update_many, find_first, find_many, order_by, max_by, any,
}
use final_aldaro.Cleanup.Rows.{
  Workspace, WorkspaceStatus, blank_workspace, creating, running_assigned, terminated,
  is_warm_available, workspace_with_id,
}
use final_aldaro.Runs.Rows.{
  Run, RunStatus, RunError, RunWorld, Outside, queued, provisioning, initializing, running,
  same_status, provisioning_failed, workspace_disappeared, workspace_failed, initialization_error,
  agent_initialization_failed, ok, failure, on_run, for_each,
}

abbrev pub heartbeat_timeout_ms : ℕ
heartbeat_timeout_ms = 300_000

abbrev pub artifact_upload_timeout_ms : ℕ
artifact_upload_timeout_ms = 1_800_000

abbrev pub in_status : RunStatus → Run → Bool
in_status status r = same_status r.status status

abbrev pub with_workspace : RunStatus → Run → Bool
with_workspace status r = in_status status r && is_some r.upstream_instance_id

abbrev pub move_row : RunStatus → ℕ → Run → Run
move_row status now r = record r { status = status; updated_at = now }

-- `status: 'failed'`, `errorMessage` and `finishedAt`; the seconds stay as they are.
abbrev pub give_up_row : RunError → ℕ → Run → Run
give_up_row error now r = record r {
  status = RunStatus.failed;
  error_message = some error;
  finished_at = some now;
  updated_at = now;
}

-- What a `try` block comes to: the new state, or the message of the error.
pub data Tried : Type 0 where
  returned : RunWorld → Tried
  threw : String → Tried

-- The `catch` clause of a stage: the run has failed.
unfoldable pub or_give_up : (String → RunError) → ℕ → Run → RunWorld → Tried → RunWorld
or_give_up error now r w (returned v) = v
or_give_up error now r w (threw message) = on_run r.id (give_up_row (error message) now) w

-- queued → provisioning

abbrev pub is_warm_for : Run → Workspace → Bool
is_warm_for r ws =
    is_warm_available ws.status
    && (ws.gpu_type == r.gpu_type
        && (not (is_some ws.assigned_user_id) && (ws.is_warm_pool && ws.verified)))

-- By descending score; a row without a score comes first, as PostgreSQL orders it.
unfoldable pub best_scored : List Workspace → Option Workspace
best_scored candidates = elim (find_first (λ ws. not (is_some ws.verification_score)) candidates) [
  | none ↦ max_by (λ ws. elim ws.verification_score [ none ↦ 0 | some score ↦ score ]) candidates
  | some ws ↦ some ws
]

abbrev pub assign_row : ℕ → ℕ → Workspace → Workspace
assign_row user now ws = record ws {
  status = running_assigned;
  assigned_user_id = some user;
  assigned_at = some now;
  started_at = some now;
  is_warm_pool = false;
  updated_at = now;
}

-- The number that stands for the region `US`.
abbrev pub region_us : ℕ
region_us = 1

abbrev pub cold_workspace : ℕ → Run → ℕ → Workspace
cold_workspace id r now = record (blank_workspace id r.gpu_type region_us creating now) {
  assigned_user_id = some r.user_id;
  assigned_at = some now;
}

abbrev pub attach_row : ℕ → ℕ → Run → Run
attach_row workspace now r = record r {
  status = provisioning;
  upstream_instance_id = some workspace;
  infra_started_at = some now;
  updated_at = now;
}

-- Both writes of a transaction.
abbrev pub attach : (workspace now : ℕ) → List Workspace → Run → RunWorld → RunWorld
attach workspace now workspaces r w =
    on_run r.id (attach_row workspace now)
      (record w { platform = record w.platform { workspaces = workspaces } })

unfoldable pub attach_workspace : Outside → ℕ → Run → RunWorld → RunWorld
attach_workspace out now r w =
    elim (best_scored (find_many (is_warm_for r) w.platform.workspaces)) [
      | some ws ↦
          attach ws.id now
            (update_many (workspace_with_id ws.id) (assign_row r.user_id now) w.platform.workspaces)
            r w
      | none ↦
          let id = out.workspace_id_for r.id in
          attach id now (cold_workspace id r now ∷ w.platform.workspaces) r w
    ]

unfoldable pub provision_run_workspace : Outside → ℕ → Run → RunWorld → Tried
provision_run_workspace out now r w =
    if is_some r.upstream_instance_id
    then returned (on_run r.id (move_row provisioning now) w)
    else elim (out.refused r.id) [
      | some message ↦ threw message
      | none ↦ returned (attach_workspace out now r w)
    ]

unfoldable pub process_queued_run : Outside → ℕ → Run → RunWorld → RunWorld
process_queued_run out now r w =
    or_give_up provisioning_failed now r w (provision_run_workspace out now r w)

unfoldable pub process_queued_runs : Outside → ℕ → RunWorld → RunWorld
process_queued_runs out now w =
    for_each (process_queued_run out now)
      (take 10 (order_by (λ r. r.created_at) (find_many (in_status queued) w.runs))) w

-- provisioning → initializing

unfoldable pub check_workspace : ℕ → Run → Workspace → RunWorld → RunWorld
check_workspace now r ws w = elim ws.status [
  | running_assigned ↦ on_run r.id (move_row initializing now) w
  | WorkspaceStatus.failed ↦ on_run r.id (give_up_row (workspace_failed ws.last_error_code) now) w
  | terminated ↦ on_run r.id (give_up_row (workspace_failed ws.last_error_code) now) w
  | _ ↦ w
]

unfoldable pub workspace_of : Run → RunWorld → Option Workspace
workspace_of r w = elim r.upstream_instance_id [
  | none ↦ none
  | some id ↦ find_first (workspace_with_id id) w.platform.workspaces
]

unfoldable pub process_provisioning_run : ℕ → Run → RunWorld → RunWorld
process_provisioning_run now r w = elim (workspace_of r w) [
  | none ↦ on_run r.id (give_up_row workspace_disappeared now) w
  | some ws ↦ check_workspace now r ws w
]

unfoldable pub process_provisioning_runs : ℕ → RunWorld → RunWorld
process_provisioning_runs now w =
    for_each (process_provisioning_run now)
      (take 20 (find_many (with_workspace provisioning) w.runs)) w

-- initializing → running

abbrev pub start_row : ℕ → Run → Run
start_row now r = record r { status = running; started_at = some now; updated_at = now }

abbrev pub refuse_row : String → ℕ → Run → Run
refuse_row message now r = record (give_up_row (agent_initialization_failed message) now r) {
  infra_finished_at = some now;
}

-- The call takes up to 30 seconds, and the update after it does not ask for the run's status.
unfoldable pub execute : Outside → ℕ → Run → RunWorld → RunWorld
execute out now r w = elim (out.agent r.id) [
  | ok ↦ on_run r.id (start_row now) (out.meanwhile r.id w)
  | failure message ↦ on_run r.id (refuse_row message now) (out.meanwhile r.id w)
]

unfoldable pub initialize_run : Outside → ℕ → Run → ℕ → RunWorld → Tried
initialize_run out now r address w =
    if not (any (λ p. p.id == r.project_id) w.projects)
    then threw "Project not found"
    else if not (out.in_subnet address)
    then threw "VM IP is not in allowed subnet, possible SSRF"
    else returned (execute out now r w)

-- A workspace without a row or without an address is waited for.
unfoldable pub process_initializing_run : Outside → ℕ → Run → RunWorld → RunWorld
process_initializing_run out now r w = elim (workspace_of r w) [
  | none ↦ w
  | some ws ↦ elim ws.vm_internal_ip [
    | none ↦ w
    | some address ↦
        if address == 0
        then w
        else or_give_up initialization_error now r w (initialize_run out now r address w)
  ]
]

unfoldable pub process_initializing_runs : Outside → ℕ → RunWorld → RunWorld
process_initializing_runs out now w =
    for_each (process_initializing_run out now)
      (take 10 (find_many (with_workspace initializing) w.runs)) w
