-- ===== src/Runs/Overwritten.antt =====
-- A run that a request has changed while its agent was called: `processInitializingRuns` of
-- worker/src/jobs/run-executor.ts.
use final_aldaro.Common.{ℕ, ◌≡◌, refl, false, true, some, ◌==◌, any, find_first-update_many}
use final_aldaro.Cleanup.Rows.{Workspace}
use final_aldaro.Runs.Rows.{Run, RunWorld, Outside, running, ok, find_run, run_with_id}
use final_aldaro.Runs.Stages.{
  start_row, execute, initialize_run, or_give_up, workspace_of, process_initializing_run,
}

-- Where the workspace of an initializing run is there with an address in the subnet, its project
-- is there and the agent takes the run, the run is running afterwards whatever requests have made
-- of its row while the agent was called, also where it was canceled, with the end of its machine
-- and its seconds as they left them.
pub process_initializing_run-starts :
    (out : Outside) (now address : ℕ) (r s : Run) (ws : Workspace) (w : RunWorld)
    → workspace_of r w ≡ some ws
    → ws.vm_internal_ip ≡ some address
    → (address == 0) ≡ false
    → any (λ p. p.id == r.project_id) w.projects ≡ true
    → out.in_subnet address ≡ true
    → out.agent r.id ≡ ok
    → find_run r.id (out.meanwhile r.id w) ≡ some s
    → (t : Run) × (find_run r.id (process_initializing_run out now r w) ≡ some t)
      × (t.status ≡ running)
      × (t.infra_finished_at ≡ s.infra_finished_at)
      × (t.billed_seconds ≡ s.billed_seconds)
unfolding process_initializing_run or_give_up initialize_run execute
process_initializing_run-starts out now address r s ws w placed known full project inside taken
      found =
    rw (placed, process_initializing_run)
      (rw (known, process_initializing_run)
        (rw (full, process_initializing_run)
          (rw (project, initialize_run)
            (rw (inside, initialize_run)
              (rw (taken, execute)
                (
                  start_row now s,
                  find_first-update_many (run_with_id r.id) (start_row now)
                      (out.meanwhile r.id w).runs s (λ x. refl) found,
                  refl,
                  refl,
                  refl,
                ))))))
