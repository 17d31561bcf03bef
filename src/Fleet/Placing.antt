-- ===== src/Fleet/Placing.antt =====
-- `spawnWarmWorkspace` and `provisionColdWorkspace` of worker/src/jobs/warm-pool.ts: what the building of a machine
-- keeps after a claim, both keep.
use final_aldaro.Common.{ℕ, ◌≡◌, refl, inl, inr, Option, none, some, Option-cases, find_first}
use final_aldaro.Billing.Catalog.{WarmPoolConfig}
use final_aldaro.Cleanup.Rows.{Workspace, FleetGpu}
use final_aldaro.Fleet.Build.{build, warm_steps, cold_steps}
use final_aldaro.Fleet.Claim.{
  Claimed, claimed, already_claimed, refused, claim_gpu, find_gpu, find_template, template_on,
  get_next_vmid, change_workspace,
}
use final_aldaro.Fleet.Rows.{Fleet, Hands, VmTemplate}
use final_aldaro.Fleet.Spawn.{
  after_claim_warm, spawn_on, spawn_with, spawn_warm_workspace, after_claim_cold, provision_on,
  provision_with, place_workspace, provision_cold_workspace, delete_workspace, unplace,
  add_workspace, warm_workspace, placed_row,
}
use final_aldaro.Fleet.Turns.{Keeps}
use final_aldaro.Fleet.Watching.{Untouched}

-- `P` is about semaphores, GPUs and allocations alone; others keep it, and so does a machine that is
-- built after a claim.
pub record IsPlacing {ℓ} (P : Fleet → Type ℓ) (h : Hands) : Type ℓ where
  pub untouched : (fl fl' : Fleet) → Untouched fl fl' → P fl → P fl'
  pub others : Keeps P h.before_claim
  pub warm :
      (w gpu node : ℕ) (fl fl' : Fleet)
      → P fl
      → claim_gpu h w gpu fl ≡ claimed fl'
      → P (build h (warm_steps h w) (delete_workspace w) w gpu node fl')
  pub cold :
      (w gpu node : ℕ) (fl fl' : Fleet)
      → P fl
      → claim_gpu h w gpu fl ≡ claimed fl'
      → P (build h (cold_steps h w) (unplace h w) w gpu node fl')

module _ {ℓ} {P : Fleet → Type ℓ} (h : Hands) (placing : IsPlacing P h) where
  after_claim_warm_kept :
      (gpu node : ℕ) (fl : Fleet) (c : Claimed)
      → P fl
      → claim_gpu h h.workspace_id gpu fl ≡ c
      → P (after_claim_warm h gpu node fl c)
  unfolding after_claim_warm
  after_claim_warm_kept gpu node fl (claimed fl') ok won =
      placing.warm h.workspace_id gpu node fl fl' ok won
  after_claim_warm_kept gpu node fl already_claimed ok won =
      placing.untouched fl (delete_workspace h.workspace_id fl)
        (record { semaphores = refl; gpus = refl; allocations = refl }) ok
  after_claim_warm_kept gpu node fl refused ok won = ok

  spawn_on_kept : (cfg : WarmPoolConfig) (found : FleetGpu × ℕ) → Keeps P (spawn_on h cfg found)
  unfolding spawn_on
  spawn_on_kept cfg (g, node) fl ok =
      let added = add_workspace (warm_workspace h cfg node (get_next_vmid node fl)) fl in
      let before = h.before_claim added in
      after_claim_warm_kept g.id node before (claim_gpu h h.workspace_id g.id before)
        (placing.others added (
          placing.untouched fl added (record { semaphores = refl; gpus = refl; allocations = refl })
            ok))
        refl

  spawn_with_kept :
      (cfg : WarmPoolConfig) (found : FleetGpu × ℕ) (t : Option VmTemplate)
      → Keeps P (spawn_with h cfg found t)
  unfolding spawn_with
  spawn_with_kept cfg found none fl ok = ok
  spawn_with_kept cfg found (some t) fl ok = spawn_on_kept cfg found fl ok

  pub spawn_warm_workspace_kept : (cfg : WarmPoolConfig) → Keeps P (spawn_warm_workspace h cfg)
  unfolding spawn_warm_workspace
  spawn_warm_workspace_kept cfg fl ok = elim (Option-cases (find_gpu h cfg.gpu_type fl)) [
    | inl missing ↦ rw (missing, spawn_warm_workspace) ok
    | inr ((g, node), found) ↦
        rw (found, spawn_warm_workspace)
          (spawn_with_kept cfg (g, node) (find_template node cfg.gpu_type fl) fl ok)
  ]

  row_kept : (w : ℕ) (f : Workspace → Workspace) → Keeps P (change_workspace w f)
  row_kept w f fl ok =
      placing.untouched fl (change_workspace w f fl)
        (record { semaphores = refl; gpus = refl; allocations = refl }) ok

  after_claim_cold_kept :
      (w gpu node : ℕ) (fl : Fleet) (c : Claimed)
      → P fl
      → claim_gpu h w gpu fl ≡ c
      → P (after_claim_cold h w gpu node fl c)
  unfolding after_claim_cold
  after_claim_cold_kept w gpu node fl (claimed fl') ok won = placing.cold w gpu node fl fl' ok won
  after_claim_cold_kept w gpu node fl already_claimed ok won = row_kept w _ fl ok
  after_claim_cold_kept w gpu node fl refused ok won = ok

  provision_on_kept : (w : ℕ) (found : FleetGpu × ℕ) → Keeps P (provision_on h w found)
  unfolding provision_on
  provision_on_kept w (g, node) fl ok =
      let placed = change_workspace w (placed_row node (get_next_vmid node fl) h.now) fl in
      let before = h.before_claim placed in
      after_claim_cold_kept w g.id node before (claim_gpu h w g.id before)
        (placing.others placed (row_kept w _ fl ok)) refl

  provision_with_kept :
      (w : ℕ) (found : FleetGpu × ℕ) (t : Option VmTemplate) → Keeps P (provision_with h w found t)
  unfolding provision_with
  provision_with_kept w found none fl ok = row_kept w _ fl ok
  provision_with_kept w found (some t) fl ok = provision_on_kept w found fl ok

  place_workspace_kept : (ws : Workspace) → Keeps P (place_workspace h ws)
  unfolding place_workspace
  place_workspace_kept ws fl ok = elim (Option-cases (find_gpu h ws.gpu_type fl)) [
    | inl missing ↦ rw (missing, place_workspace) (row_kept ws.id _ fl ok)
    | inr ((g, node), found) ↦
        rw (found, place_workspace)
          (provision_with_kept ws.id (g, node) (find_first (template_on node) fl.templates) fl ok)
  ]

  pub provision_cold_workspace_kept : (ws : Workspace) → Keeps P (provision_cold_workspace h ws)
  unfolding provision_cold_workspace
  provision_cold_workspace_kept ws fl ok = place_workspace_kept ws _ (row_kept ws.id _ fl ok)
