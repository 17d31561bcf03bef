-- ===== src/Fleet/Turns.antt =====
-- A tick of the warm pool (`warmPoolTick` of worker/src/jobs/warm-pool.ts) as a whole: what each of its turns keeps, the tick keeps.
use final_aldaro.Common.{
  ℕ, zero, suc, ◌+◌, ◌-◌, inl, inr, List, [], ◌∷◌, ltb, Bool-cases, find_many, take,
}
use final_aldaro.Billing.Catalog.{WarmPoolConfig}
use final_aldaro.Cleanup.Rows.{Workspace}
use final_aldaro.Fleet.Clones.{cleanup_orphaned_semaphores}
use final_aldaro.Fleet.Pool.{
  PoolTick, spawn_each, stop_each, resize, resize_each, provision_each, process_creating_workspaces,
  watch_each, process_waiting_workspaces, warm_pool_tick, needs_machine, is_waiting, available_in,
  extras,
}
use final_aldaro.Fleet.Claim.{on_platform}
use final_aldaro.Fleet.Rows.{Fleet}
use final_aldaro.Fleet.Shrink.{terminate_workspace}
use final_aldaro.Fleet.Spawn.{spawn_warm_workspace, provision_cold_workspace}
use final_aldaro.Fleet.Waiting.{process_waiting_workspace}

abbrev pub Keeps {ℓ} : (Fleet → Type ℓ) → (Fleet → Fleet) → Type ℓ
Keeps P f = (fl : Fleet) → P fl → P (f fl)

-- The turns of a tick keep `P`, and so does what others write in between.
pub record IsKept {ℓ} (P : Fleet → Type ℓ) (t : PoolTick) : Type ℓ where
  pub cleaned : Keeps P (cleanup_orphaned_semaphores t.now)
  pub spawned :
      (cfg : WarmPoolConfig) (i : ℕ) → Keeps P (spawn_warm_workspace (t.spawns cfg.id i) cfg)
  pub stopped :
      (ws : Workspace)
      → Keeps P (on_platform (terminate_workspace (t.stops ws.id) "warm_pool_shrink" ws.id))
  pub provisioned : (ws : Workspace) → Keeps P (provision_cold_workspace (t.provisions ws.id) ws)
  pub watched : (ws : Workspace) → Keeps P (process_waiting_workspace (t.watches ws.id) ws)
  pub others : (ws : Workspace) → Keeps P (t.others ws.id)

module _ {ℓ} {P : Fleet → Type ℓ} (t : PoolTick) (kept : IsKept P t) where
  spawn_each-kept : (cfg : WarmPoolConfig) (n i : ℕ) → Keeps P (spawn_each t cfg n i)
  unfolding spawn_each
  spawn_each-kept cfg zero i fl ok = ok
  spawn_each-kept cfg (suc n) i fl ok =
      spawn_each-kept cfg n (i + 1) (spawn_warm_workspace (t.spawns cfg.id i) cfg fl)
        (kept.spawned cfg i fl ok)

  stop_each-kept : (wss : List Workspace) → Keeps P (stop_each t wss)
  unfolding stop_each
  stop_each-kept [] fl ok = ok
  stop_each-kept (ws ∷ wss) fl ok = stop_each-kept wss _ (kept.stopped ws fl ok)

  resize-kept : (cfg : WarmPoolConfig) → Keeps P (resize t cfg)
  unfolding resize
  resize-kept cfg fl ok =
      let available = available_in cfg fl in
      elim (Bool-cases (ltb available cfg.target_count)) [
        | inl few ↦ rw few (spawn_each-kept cfg (cfg.target_count - available) 0 fl ok)
        | inr enough ↦ elim (Bool-cases (ltb (cfg.target_count + 1) available)) [
          | inl many ↦ rw enough (
              rw many
                (stop_each-kept (take (available - (cfg.target_count + 1)) (extras cfg fl)) fl ok))
          | inr few ↦ rw enough (rw few ok)
        ]
      ]

  resize_each-kept : (cfgs : List WarmPoolConfig) → Keeps P (resize_each t cfgs)
  unfolding resize_each
  resize_each-kept [] fl ok = ok
  resize_each-kept (cfg ∷ cfgs) fl ok =
      resize_each-kept cfgs (resize t cfg fl) (resize-kept cfg fl ok)

  provision_each-kept : (wss : List Workspace) → Keeps P (provision_each t wss)
  unfolding provision_each
  provision_each-kept [] fl ok = ok
  provision_each-kept (ws ∷ wss) fl ok =
      provision_each-kept wss _ (kept.provisioned ws (t.others ws.id fl) (kept.others ws fl ok))

  watch_each-kept : (wss : List Workspace) → Keeps P (watch_each t wss)
  unfolding watch_each
  watch_each-kept [] fl ok = ok
  watch_each-kept (ws ∷ wss) fl ok =
      watch_each-kept wss _ (kept.watched ws (t.others ws.id fl) (kept.others ws fl ok))

  pub warm_pool_tick-kept : Keeps P (warm_pool_tick t)
  unfolding warm_pool_tick process_creating_workspaces process_waiting_workspaces
  warm_pool_tick-kept fl ok =
      let resized = resize_each t fl.catalog.configs (cleanup_orphaned_semaphores t.now fl) in
      let provisioned = process_creating_workspaces t resized in
      watch_each-kept
        (take 10 (find_many (λ ws. is_waiting ws.status) provisioned.platform.workspaces))
        provisioned
        (provision_each-kept (take 5 (find_many needs_machine resized.platform.workspaces)) resized
          (resize_each-kept fl.catalog.configs (cleanup_orphaned_semaphores t.now fl)
            (kept.cleaned fl ok)))
