-- ===== src/Fleet/Tests.antt =====
-- The warm pool at concrete tables.
use final_aldaro.Common.{◌≡◌, refl, true, false, none, some, [], ◌∷◌, arith}
use final_aldaro.Billing.Catalog.{WarmPoolConfig}
use final_aldaro.Cleanup.Rows.{
  Workspace, Platform, FleetGpu, GpuAllocation, blank_workspace, creating, waiting_for_agent,
  terminated, free,
}
use final_aldaro.Cleanup.Attempt.{answered}
use final_aldaro.Fleet.Rows.{Fleet, VmTemplate, Hands}
use final_aldaro.Fleet.Vlan.{derive_vlan_tag}
use final_aldaro.Fleet.Claim.{find_gpu, find_template, get_next_vmid}
use final_aldaro.Fleet.Clones.{may_clone}
use final_aldaro.Fleet.Spawn.{
  spawn_warm_workspace, provision_cold_workspace, add_workspace, warm_workspace,
}
use final_aldaro.Fleet.Waiting.{Watch, address, process_waiting_workspace}
use final_aldaro.Fleet.Pool.{PoolTick, warm_pool_tick}
use final_aldaro.Fleet.Bounded.{Within}
use final_aldaro.Fleet.Limited.{warm_pool_tick-Within}
use final_aldaro.Fleet.Exclusive.{IsExclusive}
use final_aldaro.Fleet.Owners.{warm_pool_tick-IsExclusive}
use final_aldaro.Fleet.Stuck.{spawn_warm_workspace_stuck}
use final_aldaro.Fleet.Revived.{IsStarted, provision_cold_workspace-IsStarted}
use final_aldaro.Fleet.Late.{IsLate, process_waiting_workspace-IsLate}

-- `ab`: 97 * 31 + 98 is 3105.
vlan_of_ab : derive_vlan_tag (97 ∷ 98 ∷ []) ≡ 3305
unfolding derive_vlan_tag
vlan_of_ab = refl

abbrev gpu : FleetGpu
gpu = record {
  id = 3;
  node_id = 1;
  gpu_name = 1;
  gpu_type = some 1;
  status = free;
  current_workspace_id = none;
}

abbrev old_allocation : GpuAllocation
old_allocation = record { id = 4; workspace_id = 6; gpu_id = 3; released_at = some 10 }

abbrev template : VmTemplate
template = record {
  proxmox_node = 2;
  template_vmid = 9000;
  gpu_type = some 1;
  enabled = true;
  created_at = 0;
}

abbrev config : WarmPoolConfig
config = record {
  id = 1;
  region = 1;
  gpu_type = 1;
  target_count = 1;
  base_price_cents = 200;
  current_spot_price_cents = 200;
  last_price_update_at = none;
  last_rental_at = none;
}

-- A cold workspace of user 5 whose termination came first.
abbrev cold : Workspace
cold = record (blank_workspace 7 1 1 creating 0) { assigned_user_id = some 5 }

abbrev stopped : Workspace
stopped = record cold { status = terminated }

abbrev platform : Platform
platform = record {
  workspaces = stopped ∷ [];
  jobs = [];
  gpus = gpu ∷ [];
  allocations = [];
  incidents = [];
  ledger = record { sessions = []; outbox = [] };
  gateway = record { endpoints = []; active_allocations = []; allocated_ports = [] };
}

abbrev fleet : Fleet
fleet = record {
  platform = platform;
  catalog = record { configs = config ∷ []; skus = [] };
  nodes = record { id = 1; name = 2; active = true } ∷ [];
  templates = template ∷ [];
  semaphores = [];
}

abbrev used_fleet : Fleet
used_fleet = record fleet { platform = record platform { allocations = old_allocation ∷ [] } }

abbrev hands : Hands
hands = record {
  now = 100;
  workspace_id = 8;
  allocation_id = 5;
  vlan = 300;
  max_concurrent_clones = 3;
  name_contains = λ name gpu. false;
  before_claim = λ fl. fl;
  claim_fault = false;
  semaphore_fault = false;
  fault = λ point. none;
  time_at = λ point. 101;
  time_failed = 102;
}

abbrev tick : PoolTick
tick = record {
  now = 100;
  spawns = λ config i. hands;
  stops = λ workspace. record {
    now = 100;
    call = answered;
    sessions = record { clock = λ s. 100; event_id = λ s. 1; fault = λ s. none };
  };
  provisions = λ workspace. hands;
  watches = λ workspace. record { ip = address none; now = 100; session_id = 1; job_id = 1 };
  others = λ workspace fl. fl;
}

warm_pool_tick-Within_example : Within 3 (warm_pool_tick tick fleet)
warm_pool_tick-Within_example =
    warm_pool_tick-Within 3 tick fleet
      (record {
        spawns = λ c i. record { bound = refl; others = λ fl ok. ok };
        provisions = λ w. record { bound = refl; others = λ fl ok. ok };
        others = λ w fl ok. ok;
      })
      (λ node. omega arith)

warm_pool_tick-IsExclusive_example : IsExclusive (warm_pool_tick tick used_fleet).platform
warm_pool_tick-IsExclusive_example =
    warm_pool_tick-IsExclusive tick used_fleet
      (record { spawns = λ c i fl v. v; provisions = λ w fl v. v; others = λ w fl v. v })
      (record { gpus = (tt, tt); once = (tt, tt); held = ((λ live. absurd (ground arith)), tt) })

spawn_warm_workspace_stuck_example :
    spawn_warm_workspace hands config used_fleet
    ≡ add_workspace (warm_workspace hands config 2 (get_next_vmid 2 used_fleet)) used_fleet
unfolding find_gpu find_template
spawn_warm_workspace_stuck_example =
    spawn_warm_workspace_stuck hands config used_fleet gpu 2 template (λ fl. refl) refl refl refl

provision_cold_workspace-IsStarted_example : IsStarted 7 (provision_cold_workspace hands cold fleet)
unfolding find_gpu may_clone
provision_cold_workspace-IsStarted_example =
    provision_cold_workspace-IsStarted hands cold stopped fleet gpu 2 template (λ fl. refl) refl
      refl refl refl refl refl (λ point. refl)

-- Booted at 0, and the agent beats at 400 seconds.
abbrev waiting : Workspace
waiting = record cold {
  status = waiting_for_agent;
  boot_completed_at = some 0;
  vm_internal_ip = some 9;
  proxmox_node = some 2;
  proxmox_vmid = some 1000;
  last_agent_heartbeat_at = some 400_000;
}

abbrev waiting_fleet : Fleet
waiting_fleet = record fleet { platform = record platform { workspaces = waiting ∷ [] } }

abbrev watch : Watch
watch = record { ip = address (some 9); now = 400_001; session_id = 1; job_id = 1 }

process_waiting_workspace-IsLate_example :
    IsLate 7 (process_waiting_workspace watch waiting waiting_fleet)
process_waiting_workspace-IsLate_example =
    process_waiting_workspace-IsLate watch waiting waiting 5 (some 9) waiting_fleet refl refl refl
      refl refl refl refl refl refl
