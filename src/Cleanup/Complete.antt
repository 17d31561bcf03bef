-- ===== src/Cleanup/Complete.antt =====
-- What a cleanup that comes to its end has torn down, as a whole.
use final_aldaro.Common.{ℕ, ◌≡◌, Option, none, some, update_many}
use final_aldaro.Billing.Ledger.{IsLedger}
use final_aldaro.Cleanup.Rows.{Workspace, GpuAllocation, Platform, job_with_id, workspace_with_id}
use final_aldaro.Cleanup.Attempt.{
  Run, Act, and_then, close_sessions, release_gateway_ports, delete_machine, release_gpu,
  release_endpoints, terminate_row, terminate_workspace, done_row, finish_job, tear_down,
}
use final_aldaro.Cleanup.Parts.{
  Stays, Gives, and_then-Stays, and_then-first, and_then-second, write-Stays, write-Gives,
}
use final_aldaro.Cleanup.Torn.{
  Idle, Unleased, Ended, Done, Freed, InStep, Any, close_sessions-Gives,
  release_gateway_ports-Stays, release_gpu-Stays, release_gpu-Gives, unleased, ended, finished,
}

module _ (run : Run) (id : ℕ) (ws : Workspace) (a : Option GpuAllocation) where
  -- The last two writes, and the parts before them one by one.
  abbrev last_writes : Act
  last_writes = and_then (terminate_workspace run ws.id) (finish_job run id)

  abbrev from_endpoints : Act
  from_endpoints = and_then (release_endpoints run ws.id) last_writes

  abbrev from_gpu : Act
  from_gpu = and_then (release_gpu run a) from_endpoints

  abbrev from_machine : Act
  from_machine = and_then (delete_machine run ws) from_gpu

  abbrev from_ports : Act
  from_ports = and_then (release_gateway_ports run ws.id) from_machine

  -- What only the rows before the last writes decide stays as it is.
  last_writes-Stays :
      (Q : Platform → Type 0)
      → ((p : Platform)
          → Q p
          → Q (record p {
            workspaces =
                update_many (workspace_with_id ws.id) (terminate_row run.later) p.workspaces;
          }))
      → ((p : Platform)
          → Q p
          → Q (record p { jobs = update_many (job_with_id id) (done_row run.later) p.jobs }))
      → Stays Q last_writes
  unfolding terminate_workspace finish_job
  last_writes-Stays Q h k =
      and_then-Stays Any Q _ _ (write-Stays Any Q run _ _ h) (write-Stays Any Q run _ _ k)

  from_endpoints-Stays-Idle : Stays (Idle ws.id) from_endpoints
  unfolding release_endpoints
  from_endpoints-Stays-Idle =
      and_then-Stays Any (Idle ws.id) _ _ (write-Stays Any (Idle ws.id) run _ _ (λ q k. k))
        (last_writes-Stays (Idle ws.id) (λ q k. k) (λ q k. k))

  from_endpoints-Stays-Freed : (b : Option GpuAllocation) → Stays (Freed b) from_endpoints
  unfolding release_endpoints
  from_endpoints-Stays-Freed none q k = tt
  from_endpoints-Stays-Freed (some b) q k =
      and_then-Stays Any (Freed (some b)) _ _ (write-Stays Any (Freed (some b)) run _ _ (λ q k. k))
        (last_writes-Stays (Freed (some b)) (λ q k. k) (λ q k. k)) q k

  from_ports-Stays-Idle : Stays (Idle ws.id) from_ports
  unfolding delete_machine
  from_ports-Stays-Idle =
      and_then-Stays Any (Idle ws.id) _ _ (release_gateway_ports-Stays run ws.id) (
        and_then-Stays Any (Idle ws.id) _ _ (λ q k. k)
          (and_then-Stays Any (Idle ws.id) _ _ (release_gpu-Stays run a ws.id)
            from_endpoints-Stays-Idle))

  -- What the parts from the GPU on give, the whole gives.
  whole-Gives : (Q : Platform → Type 0) → Gives Any Q from_gpu → Gives Any Q (tear_down run id ws a)
  unfolding tear_down
  whole-Gives Q h =
      and_then-second Any Q _ _ (λ q k. tt)
        (and_then-second Any Q _ _ (λ q k. tt) (and_then-second Any Q _ _ (λ q k. tt) h))

  from_gpu-Gives : (Q : Platform → Type 0) → Gives Any Q from_endpoints → Gives Any Q from_gpu
  from_gpu-Gives Q = and_then-second Any Q (release_gpu run a) from_endpoints (λ q k. tt)

  tear_down-Idle : Gives InStep (Idle ws.id) (tear_down run id ws a)
  unfolding tear_down
  tear_down-Idle =
      and_then-first InStep (Idle ws.id) (close_sessions run ws.id) from_ports
        (close_sessions-Gives run ws.id) from_ports-Stays-Idle

  tear_down-Freed : Gives Any (Freed a) (tear_down run id ws a)
  tear_down-Freed = whole-Gives (Freed a) (
      and_then-first Any (Freed a) (release_gpu run a) from_endpoints (release_gpu-Gives run a)
        (from_endpoints-Stays-Freed a))

  tear_down-Unleased : Gives Any (Unleased ws.id) (tear_down run id ws a)
  unfolding release_endpoints
  tear_down-Unleased = whole-Gives (Unleased ws.id) (
      from_gpu-Gives (Unleased ws.id) (
        and_then-first Any (Unleased ws.id) (release_endpoints run ws.id) last_writes
          (write-Gives Any (Unleased ws.id) run _ _
            (λ q _. unleased run.later ws.id q.gateway.endpoints))
          (last_writes-Stays (Unleased ws.id) (λ q k. k) (λ q k. k))))

  tear_down-Ended : Gives Any (Ended ws.id) (tear_down run id ws a)
  unfolding terminate_workspace finish_job
  tear_down-Ended = whole-Gives (Ended ws.id) (
      from_gpu-Gives (Ended ws.id) (
        and_then-second Any (Ended ws.id) (release_endpoints run ws.id) last_writes (λ q k. tt)
          (and_then-first Any (Ended ws.id) (terminate_workspace run ws.id) (finish_job run id)
            (write-Gives Any (Ended ws.id) run _ _ (λ q _. ended run.later ws.id q.workspaces))
            (write-Stays Any (Ended ws.id) run _ _ (λ q k. k)))))

  tear_down-Done : Gives Any (Done id) (tear_down run id ws a)
  unfolding finish_job
  tear_down-Done = whole-Gives (Done id) (
      from_gpu-Gives (Done id) (
        and_then-second Any (Done id) (release_endpoints run ws.id) last_writes (λ q k. tt)
          (and_then-second Any (Done id) (terminate_workspace run ws.id) (finish_job run id)
            (λ q k. tt) (write-Gives Any (Done id) run _ _ (λ q _. finished run.later id q.jobs)))))

  -- Where the `try` block of a cleanup comes to its end on billing tables in step, no session of
  -- the workspace runs and the tables are in step, the GPU of the allocation is FREE, the
  -- workspace has no active lease in the table of endpoints, its row is TERMINATED, and the job's
  -- row is DONE.
  pub tear_down-tears :
      (p : Platform)
      → IsLedger p.ledger
      → (tear_down run id ws a p).1 ≡ none
      → Idle ws.id (tear_down run id ws a p).0
        × Freed a (tear_down run id ws a p).0
        × Unleased ws.id (tear_down run id ws a p).0
        × Ended ws.id (tear_down run id ws a p).0
        × Done id (tear_down run id ws a p).0
  tear_down-tears p v fine = (
    tear_down-Idle p v fine,
    tear_down-Freed p tt fine,
    tear_down-Unleased p tt fine,
    tear_down-Ended p tt fine,
    tear_down-Done p tt fine,
  )
