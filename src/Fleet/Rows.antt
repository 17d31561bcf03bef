-- ===== src/Fleet/Rows.antt =====
-- The tables of nodes, templates and clone semaphores (packages/db/prisma/schema.prisma) beside those of
-- the platform, and what the job finds outside of the database.
use final_aldaro.Common.{ℕ, Bool, not, Option, List, ◌==◌, ◌&&◌, is_some}
use final_aldaro.Billing.Catalog.{Catalog}
use final_aldaro.Billing.Rows.{Failure}
use final_aldaro.Cleanup.Rows.{Platform}

-- A node goes by its name in every table but that of the GPUs.
pub record FleetNode : Type 0 where
  pub id : ℕ
  pub name : ℕ
  -- `status: 'ACTIVE'`
  pub active : Bool

pub record VmTemplate : Type 0 where
  pub proxmox_node : ℕ
  pub template_vmid : ℕ
  pub gpu_type : Option ℕ
  pub enabled : Bool
  pub created_at : ℕ

pub record CloneSemaphore : Type 0 where
  pub proxmox_node : ℕ
  pub workspace_id : ℕ
  pub acquired_at : ℕ
  pub released_at : Option ℕ

pub record Fleet : Type 0 where
  pub platform : Platform
  pub catalog : Catalog
  pub nodes : List FleetNode
  pub templates : List VmTemplate
  pub semaphores : List CloneSemaphore

abbrev pub node_with_id : ℕ → FleetNode → Bool
node_with_id id n = n.id == id

abbrev pub is_held : CloneSemaphore → Bool
is_held s = not (is_some s.released_at)

abbrev pub held_on : ℕ → CloneSemaphore → Bool
held_on node s = s.proxmox_node == node && is_held s

abbrev pub held_by : ℕ → CloneSemaphore → Bool
held_by workspace s = s.workspace_id == workspace && is_held s

-- The statements of the `try` block that builds a machine. The calls of Proxmox are those of the
-- clone, the wait for its task, the configuration, the disk of an attached volume, cloud-init and
-- the start.
pub data Point : Type 0 where
  clone_vm wait_for_task release mark_cloned attach_gpu mark_vlan mark_attached attach_volume
        cloud_init start_vm mark_booted :
      Point

-- What the surroundings answer while one machine is built.
pub record Hands : Type 0 where
  pub now : ℕ
  pub workspace_id : ℕ
  pub allocation_id : ℕ
  pub vlan : ℕ
  -- MAX_CONCURRENT_CLONES
  pub max_concurrent_clones : ℕ
  -- whether the name of a GPU has what `mapGpuType` makes of a type
  pub name_contains : (name gpu : ℕ) → Bool
  -- what other requests write before the GPU is claimed
  pub before_claim : Fleet → Fleet
  -- the database refuses the transaction of the claim, or that of the semaphore
  pub claim_fault : Bool
  pub semaphore_fault : Bool
  pub fault : Point → Option Failure
  pub time_at : Point → ℕ
  pub time_failed : ℕ
