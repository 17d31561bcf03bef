-- ===== src/Fleet/Claim.antt =====
-- What both ways of building a machine share: the search for a GPU and a template, `getNextVmid`, and the
-- transaction that claims the GPU, of worker/src/jobs/warm-pool.ts. A GPU and a workspace each have one row of
-- allocation, by unique indexes.
use final_aldaro.Common.{
  ℕ, ◌+◌, Bool, false, Option, none, some, List, [], ◌∷◌, ◌++◌, ◌==◌, ◌&&◌, ◌||◌, if◌then◌else◌,
  or_else, is_some, any, find_first, find_many, update_many, delete_many, max_by,
}
use final_aldaro.Cleanup.Rows.{
  Workspace, Platform, FleetGpu, GpuAllocation, is_free, allocated, workspace_with_id, gpu_with_id,
  gpu_of,
}
use final_aldaro.Cleanup.Attempt.{free_gpu}
use final_aldaro.Fleet.Rows.{Fleet, FleetNode, VmTemplate, Hands, node_with_id}

abbrev pub is_type : Option ℕ → ℕ → Bool
is_type none gpu = false
is_type (some t) gpu = t == gpu

abbrev pub suits : Hands → (gpu : ℕ) → List FleetNode → FleetGpu → Bool
suits h gpu nodes g =
    is_free g.status
    && ((is_type g.gpu_type gpu || h.name_contains g.gpu_name gpu)
        && any (λ n. n.id == g.node_id && n.active) nodes)

-- The GPU with the name of its node.
unfoldable pub find_gpu : Hands → ℕ → Fleet → Option (FleetGpu × ℕ)
find_gpu h gpu fl = elim (find_first (suits h gpu fl.nodes) fl.platform.gpus) [
  | none ↦ none
  | some g ↦ elim (find_first (node_with_id g.node_id) fl.nodes) [
    | none ↦ none
    | some n ↦ some (g, n.name)
  ]
]

abbrev pub template_on : ℕ → VmTemplate → Bool
template_on node t = t.proxmox_node == node && t.enabled

-- The newest template of the node for the type of GPU, or else the newest one of the node.
unfoldable pub find_template : (node gpu : ℕ) → Fleet → Option VmTemplate
find_template node gpu fl =
    elim (max_by (λ t. t.created_at)
      (find_many (λ t. template_on node t && is_type t.gpu_type gpu) fl.templates)) [
        | some t ↦ some t
        | none ↦ max_by (λ t. t.created_at) (find_many (template_on node) fl.templates)
      ]

abbrev pub runs_on : ℕ → Workspace → Bool
runs_on node ws = is_type ws.proxmox_node node && is_some ws.proxmox_vmid

abbrev pub or_999 : ℕ → ℕ
or_999 n = if n == 0 then 999 else n

-- `(result._max.proxmoxVmid || 999) + 1`
unfoldable pub get_next_vmid : ℕ → Fleet → ℕ
get_next_vmid node fl =
    elim (max_by (λ ws. or_else ws.proxmox_vmid 0)
      (find_many (runs_on node) fl.platform.workspaces)) [
        | none ↦ 1000
        | some ws ↦ or_999 (or_else ws.proxmox_vmid 0) + 1
      ]

abbrev pub on_platform : (Platform → Platform) → Fleet → Fleet
on_platform f fl = record fl { platform = f fl.platform }

abbrev pub change_workspace : ℕ → (Workspace → Workspace) → Fleet → Fleet
change_workspace w f =
    on_platform
      (λ (p : Platform). record p { workspaces = update_many (workspace_with_id w) f p.workspaces })

-- `{ id: gpu.id, status: 'FREE' }`
abbrev pub still_free : ℕ → FleetGpu → Bool
still_free gpu g = g.id == gpu && is_free g.status

abbrev pub take_gpu : ℕ → FleetGpu → FleetGpu
take_gpu w g = record g { status = allocated; current_workspace_id = some w }

abbrev pub new_allocation : (id workspace gpu : ℕ) → GpuAllocation
new_allocation id w gpu = record { id = id; workspace_id = w; gpu_id = gpu; released_at = none }

abbrev pub allocated_to : ℕ → GpuAllocation → Bool
allocated_to gpu a = a.gpu_id == gpu

abbrev pub is_allocated : (workspace gpu : ℕ) → GpuAllocation → Bool
is_allocated w gpu a = gpu_of w a || allocated_to gpu a

pub data Claimed : Type 0 where
  claimed : Fleet → Claimed
  already_claimed : Claimed
  -- P2002, or another error of the database
  refused : Claimed

abbrev pub claim_rows : Hands → (workspace gpu : ℕ) → Platform → Platform
claim_rows h w gpu p = record p {
  gpus = update_many (still_free gpu) (take_gpu w) p.gpus;
  allocations = p.allocations ++ new_allocation h.allocation_id w gpu ∷ [];
}

-- Both writes, or neither.
unfoldable pub claim_gpu : Hands → (workspace gpu : ℕ) → Fleet → Claimed
claim_gpu h w gpu fl =
    if h.claim_fault
    then refused
    else if any (still_free gpu) fl.platform.gpus
    then if any (is_allocated w gpu) fl.platform.allocations
      then refused
      else claimed (on_platform (claim_rows h w gpu) fl)
    else already_claimed

-- The GPU is free again, and the workspace has no allocation: two statements, each of which is taken to
-- succeed.
unfoldable pub roll_back_gpu : (workspace gpu : ℕ) → Fleet → Fleet
roll_back_gpu w gpu = on_platform (λ (p : Platform). record p {
  gpus = update_many (gpu_with_id gpu) free_gpu p.gpus;
  allocations = delete_many (gpu_of w) p.allocations;
})
