-- ===== src/Fleet/Spawn.antt =====
-- `spawnWarmWorkspace` and `provisionColdWorkspace` of worker/src/jobs/warm-pool.ts. Errors that they throw are
-- logged by their callers, so each comes to the tables it leaves. The S3 bucket and the messages of
-- errors are left out.
use final_aldaro.Common.{ℕ, true, Option, none, some, [], ◌∷◌, ◌++◌, find_first, delete_many}
use final_aldaro.Billing.Rows.{named}
use final_aldaro.Billing.Catalog.{WarmPoolConfig}
use final_aldaro.Cleanup.Rows.{
  Workspace, Platform, FleetGpu, blank_workspace, creating, workspace_with_id,
}
use final_aldaro.Fleet.Rows.{Fleet, Hands, VmTemplate}
use final_aldaro.Fleet.Claim.{
  Claimed, claimed, already_claimed, refused, claim_gpu, find_gpu, find_template, template_on,
  get_next_vmid, on_platform, change_workspace,
}
use final_aldaro.Fleet.Build.{build, warm_steps, cold_steps, failed_row}

abbrev pub warm_workspace : Hands → WarmPoolConfig → (node vmid : ℕ) → Workspace
warm_workspace h cfg node vmid =
    record (blank_workspace h.workspace_id cfg.gpu_type cfg.region creating h.now) {
      is_warm_pool = true;
      proxmox_node = some node;
      proxmox_vmid = some vmid;
      provision_started_at = some h.now;
    }

abbrev pub add_workspace : Workspace → Fleet → Fleet
add_workspace ws = on_platform (λ (p : Platform). record p { workspaces = p.workspaces ++ ws ∷ [] })

abbrev pub delete_workspace : ℕ → Fleet → Fleet
delete_workspace w =
    on_platform
      (λ (p : Platform). record p { workspaces = delete_many (workspace_with_id w) p.workspaces })

-- What follows the claim of a GPU; a refusal is thrown, and leaves what came before.
unfoldable pub after_claim_warm : Hands → (gpu node : ℕ) → Fleet → Claimed → Fleet
after_claim_warm h gpu node fl (claimed fl') =
    build h (warm_steps h h.workspace_id) (delete_workspace h.workspace_id) h.workspace_id gpu node
      fl'
after_claim_warm h gpu node fl already_claimed = delete_workspace h.workspace_id fl
after_claim_warm h gpu node fl refused = fl

unfoldable pub spawn_on : Hands → WarmPoolConfig → FleetGpu × ℕ → Fleet → Fleet
unfolding after_claim_warm
spawn_on h cfg (g, node) fl =
    let before =
      h.before_claim (add_workspace (warm_workspace h cfg node (get_next_vmid node fl)) fl) in
    after_claim_warm h g.id node before (claim_gpu h h.workspace_id g.id before)

unfoldable pub spawn_with :
    Hands → WarmPoolConfig → FleetGpu × ℕ → Option VmTemplate → Fleet → Fleet
unfolding spawn_on
spawn_with h cfg found none fl = fl
spawn_with h cfg found (some t) fl = spawn_on h cfg found fl

-- A GPU and a template are needed.
unfoldable pub spawn_warm_workspace : Hands → WarmPoolConfig → Fleet → Fleet
unfolding spawn_with
spawn_warm_workspace h cfg fl = elim (find_gpu h cfg.gpu_type fl) [
  | none ↦ fl
  | some (g, node) ↦ spawn_with h cfg (g, node) (find_template node cfg.gpu_type fl) fl
]

abbrev pub started_row : ℕ → Workspace → Workspace
started_row now ws = record ws { provision_started_at = some now; updated_at = now }

abbrev pub placed_row : (node vmid now : ℕ) → Workspace → Workspace
placed_row node vmid now ws = record ws {
  proxmox_node = some node;
  proxmox_vmid = some vmid;
  updated_at = now;
}

abbrev pub unplaced_row : ℕ → Workspace → Workspace
unplaced_row now ws = record ws { proxmox_node = none; proxmox_vmid = none; updated_at = now }

abbrev pub unplace : Hands → ℕ → Fleet → Fleet
unplace h w = change_workspace w (unplaced_row h.time_failed)

unfoldable pub after_claim_cold : Hands → (workspace gpu node : ℕ) → Fleet → Claimed → Fleet
after_claim_cold h w gpu node fl (claimed fl') =
    build h (cold_steps h w) (unplace h w) w gpu node fl'
after_claim_cold h w gpu node fl already_claimed = unplace h w fl
after_claim_cold h w gpu node fl refused = fl

unfoldable pub provision_on : Hands → ℕ → FleetGpu × ℕ → Fleet → Fleet
unfolding after_claim_cold
provision_on h w (g, node) fl =
    let before =
      h.before_claim (change_workspace w (placed_row node (get_next_vmid node fl) h.now) fl) in
    after_claim_cold h w g.id node before (claim_gpu h w g.id before)

unfoldable pub provision_with : Hands → ℕ → FleetGpu × ℕ → Option VmTemplate → Fleet → Fleet
unfolding provision_on
provision_with h w found none fl =
    change_workspace w (failed_row (named "NO_TEMPLATE") h.time_failed) fl
provision_with h w found (some t) fl = provision_on h w found fl

unfoldable pub place_workspace : Hands → Workspace → Fleet → Fleet
unfolding provision_with
place_workspace h ws fl = elim (find_gpu h ws.gpu_type fl) [
  | none ↦ change_workspace ws.id (failed_row (named "NO_GPU_AVAILABLE") h.time_failed) fl
  | some (g, node) ↦
      provision_with h ws.id (g, node) (find_first (template_on node) fl.templates) fl
]

-- The workspace is the row as it was read; the tag of its VLAN is among the `Hands`.
unfoldable pub provision_cold_workspace : Hands → Workspace → Fleet → Fleet
unfolding place_workspace
provision_cold_workspace h ws fl =
    place_workspace h ws (change_workspace ws.id (started_row h.now) fl)
