-- ===== src/Cleanup/Attempt.antt =====
-- The `try` block of `processCleanupJob` of worker/src/jobs/workspace-cleanup.ts. What the database, the
-- gateway's transport and Proxmox answer are arguments: a `Run` names a fault for each write. The rows
-- that an attempt reads are not deleted under it.
use final_aldaro.Common.{
  ℕ, Bool, true, false, Option, none, some, ◌&&◌, ltb, if◌then◌else◌, or_else, any, find_first,
  update_many,
}
use final_aldaro.Billing.Rows.{Failure}
use final_aldaro.Billing.Close.{Surroundings, finalize_usage_sessions}
use final_aldaro.Gateway.Leases.{endpoint_of, set_released, release}
use final_aldaro.Cleanup.Rows.{
  Workspace, CleanupJob, FleetGpu, GpuAllocation, free, Platform, terminated, done,
  workspace_with_id, job_with_id, gpu_with_id, allocation_with_id, gpu_of,
}

-- The writes of an attempt: before the `try` block, in it, and in the `catch` clause.
pub data Write : Type 0 where
  started_row counted_row : Write
  provider gpu_row allocation_row endpoint_rows workspace_row job_row : Write
  failure_row noted_row incident_row : Write

-- The call of the gateway's route `release`: it is answered, or it fails, before or after the
-- gateway has served it.
pub data Call : Type 0 where
  answered : Call
  lost : (served : Bool) → Failure → Call

pub record Run : Type 0 where
  pub now : ℕ
  pub later : ℕ
  pub random : ℕ
  pub fault : Write → Option Failure
  pub sessions : Surroundings
  pub call : Call
  -- `proxmox.deleteVm`, and whether a message has the words `does not exist`
  pub delete_vm : Option Failure
  pub says_missing : Failure → Bool
  -- P2025, what the client throws for an update of a row that is gone
  pub not_found : Failure

-- A part of the `try` block: the tables after it, and what it throws.
abbrev pub Act : Type 0
Act = Platform → Platform × Option Failure

unfoldable pub and_then : Act → Act → Act
and_then first second p =
    let (p', thrown) = first p in elim thrown [ none ↦ second p' | some f ↦ (p', some f) ]

-- A write that may be refused.
unfoldable pub write : Run → Write → (Platform → Platform) → Act
write run point f p = elim (run.fault point) [ none ↦ (f p, none) | some e ↦ (p, some e) ]

-- `.catch(() => {})`
abbrev pub swallowed : Act → Act
swallowed act p = ((act p).0, none)

unfoldable pub close_sessions : Run → ℕ → Act
close_sessions run workspace p =
    let (l, thrown) = finalize_usage_sessions run.sessions workspace p.ledger in
    (record p { ledger = l }, thrown)

-- `releaseGatewayPorts`
unfoldable pub release_gateway_ports : Run → ℕ → Act
release_gateway_ports run workspace p =
    let served = record p { gateway = (release run.now workspace p.gateway).0 } in
    elim run.call [
      | answered ↦ (served, none)
      | lost true f ↦ (served, some f)
      | lost false f ↦ (p, some f)
    ]

-- `ws.proxmoxNode && ws.proxmoxVmid`
abbrev pub has_vm : Workspace → Bool
has_vm ws = ltb 0 (or_else ws.proxmox_node 0) && ltb 0 (or_else ws.proxmox_vmid 0)

-- What `deleteVm` throws, less the error that there is no such machine.
unfoldable pub delete_fault : Run → Option Failure
delete_fault run = elim run.delete_vm [
  | none ↦ none
  | some f ↦ if run.says_missing f then none else some f
]

unfoldable pub delete_machine : Run → Workspace → Act
delete_machine run ws p = (p, if has_vm ws then delete_fault run else none)

abbrev pub free_gpu : FleetGpu → FleetGpu
free_gpu g = record g { status = free; current_workspace_id = none }

abbrev pub release_allocation : ℕ → GpuAllocation → GpuAllocation
release_allocation now a = record a { released_at = some now }

-- A GPU whose row is gone is passed over.
unfoldable pub free_gpu_row : Run → GpuAllocation → Act
free_gpu_row run a p =
    if any (gpu_with_id a.gpu_id) p.gpus
    then write run gpu_row
        (λ p. record p { gpus = update_many (gpu_with_id a.gpu_id) free_gpu p.gpus }) p
    else (p, none)

unfoldable pub release_gpu : Run → Option GpuAllocation → Act
release_gpu run none p = (p, none)
release_gpu run (some a) p =
    and_then (free_gpu_row run a)
      (write run allocation_row (λ p. record p {
        allocations =
            update_many (allocation_with_id a.id) (release_allocation run.later) p.allocations;
      }))
      p

unfoldable pub release_endpoints : Run → ℕ → Act
release_endpoints run workspace = write run endpoint_rows (λ p. record p {
  gateway = record p.gateway {
    endpoints = update_many (endpoint_of workspace) (set_released run.later) p.gateway.endpoints;
  };
})

abbrev pub terminate_row : ℕ → Workspace → Workspace
terminate_row now ws = record ws {
  status = terminated;
  terminated_at = some now;
  updated_at = now;
  cleanup_next_retry_at = none;
  cleanup_last_error_code = none;
  cleanup_last_error_message = none;
}

unfoldable pub terminate_workspace : Run → ℕ → Act
terminate_workspace run workspace = write run workspace_row (λ p. record p {
  workspaces = update_many (workspace_with_id workspace) (terminate_row run.later) p.workspaces;
})

abbrev pub done_row : ℕ → CleanupJob → CleanupJob
done_row now j = record j {
  status = done;
  completed_at = some now;
  next_attempt_at = none;
  last_error_code = none;
  last_error_message = none;
}

unfoldable pub finish_job : Run → ℕ → Act
finish_job run id =
    write run job_row
      (λ p. record p { jobs = update_many (job_with_id id) (done_row run.later) p.jobs })

-- The job of a workspace whose row is gone.
abbrev pub gone_row : ℕ → CleanupJob → CleanupJob
gone_row now j = record j { status = done; completed_at = some now; next_attempt_at = none }

unfoldable pub finish_gone : Run → ℕ → Act
finish_gone run id =
    write run job_row
      (λ p. record p { jobs = update_many (job_with_id id) (gone_row run.later) p.jobs })

-- The parts for a workspace that was found, with its row and its allocation as they were read.
unfoldable pub tear_down : Run → ℕ → Workspace → Option GpuAllocation → Act
tear_down run job_id ws allocation = and_then (close_sessions run ws.id) (
    and_then (release_gateway_ports run ws.id) (
      and_then (delete_machine run ws) (
        and_then (release_gpu run allocation) (
          and_then (release_endpoints run ws.id)
            (and_then (terminate_workspace run ws.id) (finish_job run job_id))))))

-- The `try` block.
unfoldable pub attempt : Run → CleanupJob → Act
attempt run job p = elim (run.fault provider) [
  | some f ↦ (p, some f)
  | none ↦ elim (find_first (workspace_with_id job.workspace_id) p.workspaces) [
    | none ↦ finish_gone run job.id p
    | some ws ↦ tear_down run job.id ws (find_first (gpu_of ws.id) p.allocations) p
  ]
]
