-- ===== src/Cleanup/Tests.antt =====
-- Runs of the cleanup at concrete tables, and its theorems applied to them.
use final_aldaro.Common.{◌+◌, ◌≡◌, refl, true, false, none, some, [], ◌∷◌, All}
use final_aldaro.Billing.Rows.{Failure, named}
use final_aldaro.Billing.Close.{finalize_usage_sessions, close_each}
use final_aldaro.Gateway.Leases.{release, forget_lease}
use final_aldaro.Cleanup.Rows.{
  Workspace, blank_workspace, CleanupJob, GpuAllocation, free, allocated, Platform, terminating,
}
use final_aldaro.Cleanup.Attempt.{
  Run, answered, lost, and_then, write, close_sessions, release_gateway_ports, delete_machine,
  delete_fault, free_gpu_row, release_gpu, release_endpoints, terminate_workspace, finish_job,
  tear_down, attempt,
}
use final_aldaro.Cleanup.Run.{next_cleanup_backoff, backoff_base, process_cleanup_job}
use final_aldaro.Cleanup.Batch.{
  new_job, stale, enqueue_cleanup, enqueue_terminating, enqueue_creating,
  enqueue_stale_workspace_cleanup, due_jobs,
}
use final_aldaro.Billing.Ledger.{IsLedger}
use final_aldaro.Cleanup.Torn.{Idle, Freed, Unleased, Ended, Done}
use final_aldaro.Cleanup.Complete.{tear_down-tears}
use final_aldaro.Cleanup.Settled.{Settled, process_cleanup_job-settles}

abbrev workspace : Workspace
workspace = record (blank_workspace 7 0 0 terminating 0) {
  assigned_user_id = some 5;
  proxmox_node = some 1;
  proxmox_vmid = some 100;
  termination_reason = some "manual";
}

abbrev job : CleanupJob
job = new_job 1 7 "manual_terminate" 1000

abbrev before : Platform
before = record {
  workspaces = workspace ∷ [];
  jobs = job ∷ [];
  gpus =
      record {
        id = 3;
        node_id = 1;
        gpu_name = 1;
        gpu_type = some 1;
        status = allocated;
        current_workspace_id = some 7;
      }
      ∷ [];
  allocations = record { id = 4; workspace_id = 7; gpu_id = 3; released_at = none } ∷ [];
  incidents = [];
  ledger = record { sessions = []; outbox = [] };
  gateway = record { endpoints = []; active_allocations = []; allocated_ports = [] };
}

abbrev refused : Failure
refused = record { code = some (named "ECONNREFUSED"); message = some "connect ECONNREFUSED" }

-- Everything answers, and the machine is gone already.
abbrev calm : Run
calm = record {
  now = 2000;
  later = 3000;
  random = 4_503_599_627_370_496;
  fault = λ point. none;
  sessions = record { clock = λ s. 2000; event_id = λ s. 9; fault = λ s. none };
  call = answered;
  delete_vm = some refused;
  says_missing = λ f. true;
  not_found = refused;
}

abbrev gateway_down : Run
gateway_down = record calm { call = lost false refused }

calm_frees_gpu :
    (attempt calm job before).0.gpus
    ≡ record {
      id = 3;
      node_id = 1;
      gpu_name = 1;
      gpu_type = some 1;
      status = free;
      current_workspace_id = none;
    }
      ∷ []
unfolding attempt tear_down and_then close_sessions finalize_usage_sessions close_each
    release_gateway_ports release forget_lease delete_machine delete_fault release_gpu free_gpu_row
    write release_endpoints terminate_workspace finish_job
calm_frees_gpu = refl

-- A draw in the middle gives the base.
middle_backoff : next_cleanup_backoff 4_503_599_627_370_496 2 ≡ 30_000
unfolding next_cleanup_backoff backoff_base
middle_backoff = refl

-- A workspace that is stale is enqueued, and its job is due at once.
stale_is_due :
    due_jobs 600_001
      (enqueue_stale_workspace_cleanup (λ w. 8) 600_001 (record before { jobs = [] }))
    ≡ new_job 8 7 "stale_terminating_reconcile" 600_001 ∷ []
unfolding due_jobs enqueue_stale_workspace_cleanup enqueue_creating enqueue_terminating
    enqueue_cleanup stale
stale_is_due = refl

process_cleanup_job-settles_example :
    ((process_cleanup_job gateway_down job before).1 ≡ none)
    × All
        (λ j. j.id ≡ job.id → Settled gateway_down (job.attempt_count + 1) job.max_attempts j)
        (process_cleanup_job gateway_down job before).0.jobs
process_cleanup_job-settles_example =
    process_cleanup_job-settles gateway_down job before job (tt, tt) refl refl refl refl

no_sessions-IsLedger : IsLedger before.ledger
no_sessions-IsLedger = record { ids = tt; events = tt; accounted = tt; one_running = tt }

abbrev allocation : GpuAllocation
allocation = record { id = 4; workspace_id = 7; gpu_id = 3; released_at = none }

tear_down-tears_example :
    Idle 7 (tear_down calm 1 workspace (some allocation) before).0
    × Freed (some allocation) (tear_down calm 1 workspace (some allocation) before).0
    × Unleased 7 (tear_down calm 1 workspace (some allocation) before).0
    × Ended 7 (tear_down calm 1 workspace (some allocation) before).0
    × Done 1 (tear_down calm 1 workspace (some allocation) before).0
unfolding tear_down and_then close_sessions finalize_usage_sessions close_each release_gateway_ports
    release forget_lease delete_machine delete_fault release_gpu free_gpu_row write
    release_endpoints terminate_workspace finish_job
tear_down-tears_example =
    tear_down-tears calm 1 workspace (some allocation) before no_sessions-IsLedger refl
