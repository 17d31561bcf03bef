-- ===== src/Fleet/Pool.antt =====
-- `warmPoolTick` and `processCreatingWorkspaces` of worker/src/jobs/warm-pool.ts.
use final_aldaro.Common.{
  ℕ, zero, suc, ◌+◌, ◌-◌, Bool, true, false, not, List, [], ◌∷◌, ◌++◌, ◌==◌, ◌&&◌, if◌then◌else◌,
  ltb, or_else, is_some, count, find_many, order_by, take,
}
use final_aldaro.Billing.Catalog.{WarmPoolConfig}
use final_aldaro.Cleanup.Rows.{
  Workspace, WorkspaceStatus, is_warm_available, creating, waiting_for_agent, verifying,
  warm_available, assigning, running_assigned, terminating, terminated, failed,
}
use final_aldaro.Cleanup.Batch.{is_creating}
use final_aldaro.Fleet.Rows.{Fleet, Hands}
use final_aldaro.Fleet.Clones.{cleanup_orphaned_semaphores}
use final_aldaro.Fleet.Claim.{on_platform}
use final_aldaro.Fleet.Spawn.{spawn_warm_workspace, provision_cold_workspace}
use final_aldaro.Fleet.Shrink.{Stop, terminate_workspace}
use final_aldaro.Fleet.Waiting.{Watch, process_waiting_workspace}

-- What the surroundings answer: for each spawn of each configuration, and for each workspace.
pub record PoolTick : Type 0 where
  pub now : ℕ
  pub spawns : (config i : ℕ) → Hands
  pub stops : (workspace : ℕ) → Stop
  pub provisions : (workspace : ℕ) → Hands
  pub watches : (workspace : ℕ) → Watch
  -- what other requests write before a workspace's turn
  pub others : (workspace : ℕ) → Fleet → Fleet

abbrev pub in_pool : WarmPoolConfig → Workspace → Bool
in_pool cfg ws =
    is_warm_available ws.status
    && (ws.region == cfg.region
        && (ws.gpu_type == cfg.gpu_type && (ws.is_warm_pool && not (is_some ws.assigned_user_id))))

abbrev pub available_in : WarmPoolConfig → Fleet → ℕ
available_in cfg fl = count (λ ws. in_pool cfg ws && ws.verified) fl.platform.workspaces

-- `n` more, the `i`-th first.
unfoldable pub spawn_each : PoolTick → WarmPoolConfig → (n i : ℕ) → Fleet → Fleet
spawn_each t cfg zero i fl = fl
spawn_each t cfg (suc n) i fl =
    spawn_each t cfg n (i + 1) (spawn_warm_workspace (t.spawns cfg.id i) cfg fl)

abbrev pub score_of : Workspace → ℕ
score_of ws = or_else ws.verification_score 0

-- By ascending score; rows without one come last.
unfoldable pub extras : WarmPoolConfig → Fleet → List Workspace
extras cfg fl =
    let pool = find_many (in_pool cfg) fl.platform.workspaces in
    order_by score_of (find_many (λ ws. is_some ws.verification_score) pool)
    ++ find_many (λ ws. not (is_some ws.verification_score)) pool

unfoldable pub stop_each : PoolTick → List Workspace → Fleet → Fleet
stop_each t [] fl = fl
stop_each t (ws ∷ wss) fl =
    stop_each t wss (on_platform (terminate_workspace (t.stops ws.id) "warm_pool_shrink" ws.id) fl)

unfoldable pub resize : PoolTick → WarmPoolConfig → Fleet → Fleet
unfolding spawn_each stop_each
resize t cfg fl =
    let available = available_in cfg fl in
    if ltb available cfg.target_count
    then spawn_each t cfg (cfg.target_count - available) 0 fl
    else if ltb (cfg.target_count + 1) available
    then stop_each t (take (available - (cfg.target_count + 1)) (extras cfg fl)) fl
    else fl

unfoldable pub resize_each : PoolTick → List WarmPoolConfig → Fleet → Fleet
resize_each t [] fl = fl
resize_each t (cfg ∷ cfgs) fl = resize_each t cfgs (resize t cfg fl)

-- Cold workspaces of users that have no machine yet.
abbrev pub needs_machine : Workspace → Bool
needs_machine ws =
    is_creating ws.status && (not (is_some ws.proxmox_vmid) && is_some ws.assigned_user_id)

unfoldable pub provision_each : PoolTick → List Workspace → Fleet → Fleet
provision_each t [] fl = fl
provision_each t (ws ∷ wss) fl =
    provision_each t wss (provision_cold_workspace (t.provisions ws.id) ws (t.others ws.id fl))

unfoldable pub process_creating_workspaces : PoolTick → Fleet → Fleet
unfolding provision_each
process_creating_workspaces t fl =
    provision_each t (take 5 (find_many needs_machine fl.platform.workspaces)) fl

abbrev pub is_waiting : WorkspaceStatus → Bool
is_waiting creating = false
is_waiting waiting_for_agent = true
is_waiting verifying = false
is_waiting warm_available = false
is_waiting assigning = false
is_waiting running_assigned = false
is_waiting terminating = false
is_waiting terminated = false
is_waiting failed = false

unfoldable pub watch_each : PoolTick → List Workspace → Fleet → Fleet
watch_each t [] fl = fl
watch_each t (ws ∷ wss) fl =
    watch_each t wss (process_waiting_workspace (t.watches ws.id) ws (t.others ws.id fl))

unfoldable pub process_waiting_workspaces : PoolTick → Fleet → Fleet
unfolding watch_each
process_waiting_workspaces t fl =
    watch_each t (take 10 (find_many (λ ws. is_waiting ws.status) fl.platform.workspaces)) fl

unfoldable pub warm_pool_tick : PoolTick → Fleet → Fleet
unfolding resize_each process_creating_workspaces process_waiting_workspaces
warm_pool_tick t fl = process_waiting_workspaces t (
    process_creating_workspaces t
      (resize_each t fl.catalog.configs (cleanup_orphaned_semaphores t.now fl)))
