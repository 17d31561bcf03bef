-- ===== src/Runs/Requests.antt =====
-- The routes that change a run (apps/api/src/routes/v1/runs.ts), with the status of the response.
-- Authentication is done before them. The machine that a cancel deletes stands in no table, and the
-- rows of logs and artifacts are not kept.
use final_aldaro.Common.{
  ℕ, ◌+◌, Bool, false, not, Option, none, some, List, [], ◌∷◌, ◌==◌, ◌&&◌, ◌||◌, is_some,
  if◌then◌else◌, leb, find_first, find_many, count, update_many, any,
}
use final_aldaro.Cleanup.Rows.{
  Platform, FleetGpu, free, GpuAllocation, workspace_with_id, gpu_with_id, gpu_of,
  allocation_with_id,
}
use final_aldaro.Cleanup.Attempt.{has_vm, release_allocation}
use final_aldaro.Runs.Rows.{
  Run, RunWorld, queued, canceled, is_finished, is_active, on_run, find_run,
}

pub record User : Type 0 where
  pub id : ℕ
  pub is_alpha_tester : Bool
  pub max_concurrent_runs : ℕ
  pub daily_spend_limit_seconds : ℕ

pub record RunRequest : Type 0 where
  pub project_id : ℕ
  pub gpu_type : ℕ
  pub gpu_count : ℕ
  pub hours_max : ℕ

-- The state after a request, and the status of the response.
abbrev pub Response : Type 0
Response = RunWorld × ℕ

-- `runCreateSchema`
unfoldable pub is_well_formed : RunRequest → Bool
is_well_formed q =
    leb 1 q.gpu_count && (leb q.gpu_count 8 && (leb 1 q.hours_max && leb q.hours_max 24))

unfoldable pub active_runs : ℕ → RunWorld → ℕ
active_runs user w = count (λ r. r.user_id == user && is_active r.status) w.runs

-- `_sum: { billedSeconds: true }`
unfoldable pub sum_billed : List Run → ℕ
sum_billed [] = 0
sum_billed (r ∷ rs) = r.billed_seconds + sum_billed rs

unfoldable pub billed_since : (user today : ℕ) → RunWorld → ℕ
billed_since user today w =
    sum_billed (find_many (λ r. r.user_id == user && leb today r.created_at) w.runs)

unfoldable pub is_over_limit : User → ℕ → RunWorld → Bool
is_over_limit u today w =
    leb u.max_concurrent_runs (active_runs u.id w)
    || leb u.daily_spend_limit_seconds (billed_since u.id today w)

abbrev pub new_run : (id user now : ℕ) → RunRequest → Run
new_run id user now q = record {
  id = id;
  project_id = q.project_id;
  user_id = user;
  status = queued;
  gpu_type = q.gpu_type;
  gpu_count = q.gpu_count;
  hours_max = q.hours_max;
  upstream_instance_id = none;
  billed_seconds = 0;
  stripe_usage_reported = false;
  infra_started_at = none;
  infra_finished_at = none;
  started_at = none;
  finished_at = none;
  error_message = none;
  created_at = now;
  updated_at = now;
}

-- `prisma.run.create`: an id that is taken breaks the primary key.
unfoldable pub insert_run : Run → RunWorld → Response
insert_run r w =
    if is_some (find_run r.id w) then (w, 500) else (record w { runs = r ∷ w.runs }, 201)

-- `POST /projects/:project_id/runs`. `is_supported` is `isSupportedCustomerGpu` on GPU types.
unfoldable pub create_run :
    (ℕ → Bool) → (id now today user : ℕ) → Option User → RunRequest → RunWorld → Response
create_run is_supported id now today user account q w =
    if not (is_well_formed q)
    then (w, 400)
    else if not (any (λ p. p.id == q.project_id && p.user_id == user) w.projects)
    then (w, 404)
    else elim account [
      | none ↦ (w, 401)
      | some u ↦
          if not u.is_alpha_tester
          then (w, 403)
          else if is_over_limit u today w
          then (w, 429)
          else if not (is_supported q.gpu_type)
          then (w, 400)
          else insert_run (new_run id user now q) w
    ]

abbrev pub same_request : Run → RunRequest
same_request r = record {
  project_id = r.project_id;
  gpu_type = r.gpu_type;
  gpu_count = r.gpu_count;
  hours_max = r.hours_max;
}

-- The second half of a retry, with the old run.
abbrev pub run_again : (id now today user : ℕ) → Option User → Run → RunWorld → Response
run_again id now today user none old w = (w, 401)
run_again id now today user (some u) old w =
    if is_over_limit u today w
    then (w, 429)
    else insert_run (new_run id user now (same_request old)) w

-- `findFirst({ where: { id: run_id, userId } })`
abbrev pub own_run : (id user : ℕ) → RunWorld → Option Run
own_run id user w = find_first (λ r. r.id == id && r.user_id == user) w.runs

-- `POST /runs/:run_id/retry`
unfoldable pub retry_run : (id now today run user : ℕ) → Option User → RunWorld → Response
retry_run id now today run user account w = elim (own_run run user w) [
  | none ↦ (w, 404)
  | some old ↦ run_again id now today user account old w
]

-- `provisioner.deprovision` (apps/api/src/providers/provisioner.ts), which passes over what
-- Proxmox answers. `none` is the error of a GPU without a row.
abbrev pub free_status : FleetGpu → FleetGpu
free_status g = record g { status = free }

unfoldable pub free_allocation : ℕ → GpuAllocation → Platform → Option Platform
free_allocation now a p =
    if any (gpu_with_id a.gpu_id) p.gpus
    then some (record p {
      gpus = update_many (gpu_with_id a.gpu_id) free_status p.gpus;
      allocations = update_many (allocation_with_id a.id) (release_allocation now) p.allocations;
    })
    else none

unfoldable pub deprovision : (workspace now : ℕ) → Platform → Option Platform
deprovision workspace now p = elim (find_first (workspace_with_id workspace) p.workspaces) [
  | none ↦ some p
  | some ws ↦ if not (has_vm ws) then some p else elim (find_first (gpu_of ws.id) p.allocations) [
    | none ↦ some p
    | some a ↦ free_allocation now a p
  ]
]

abbrev pub cancel_row : ℕ → Run → Run
cancel_row now r = record r { status = canceled; infra_finished_at = some now; updated_at = now }

abbrev pub deprovision_of : Run → ℕ → Platform → Option Platform
deprovision_of r now p = elim r.upstream_instance_id [
  | none ↦ some p
  | some workspace ↦ deprovision workspace now p
]

unfoldable pub release_machine : Run → ℕ → RunWorld → Response
release_machine r now w = elim (deprovision_of r now w.platform) [
  | none ↦ (w, 500)
  | some p ↦ (record w { platform = p }, 202)
]

-- `POST /runs/:run_id/cancel`
unfoldable pub cancel_run : (run user now : ℕ) → RunWorld → Response
cancel_run run user now w = elim (own_run run user w) [
  | none ↦ (w, 404)
  | some r ↦
      if is_finished r.status
      then (w, 400)
      else release_machine r now (on_run r.id (cancel_row now) w)
]
