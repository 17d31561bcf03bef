-- ===== src/Cleanup/Rows.antt =====
-- The tables of workspaces, cleanup jobs, GPUs and incidents (packages/db/prisma/schema.prisma), with
-- the columns that decide what the services do. Ids, users, nodes, regions, GPU types, images and
-- addresses are opaque numbers, and a node or an address of 0 is the empty text; times are
-- milliseconds.
use final_aldaro.Common.{ℕ, String, Bool, true, false, Option, none, List, ◌==◌, ◌&&◌}
use final_aldaro.Billing.Rows.{Ledger, ErrorCode}
use final_aldaro.Gateway.Leases.{Gateway}

pub data WorkspaceStatus : Type 0 where
  creating waiting_for_agent verifying warm_available assigning running_assigned terminating
        terminated failed :
      WorkspaceStatus

abbrev pub is_warm_available : WorkspaceStatus → Bool
is_warm_available creating = false
is_warm_available waiting_for_agent = false
is_warm_available verifying = false
is_warm_available warm_available = true
is_warm_available assigning = false
is_warm_available running_assigned = false
is_warm_available terminating = false
is_warm_available terminated = false
is_warm_available failed = false

pub record Workspace : Type 0 where
  pub id : ℕ
  pub assigned_user_id : Option ℕ
  pub org_id : Option ℕ
  pub status : WorkspaceStatus
  pub region : ℕ
  pub gpu_type : ℕ
  pub is_warm_pool : Bool
  -- `verificationStatus: 'PASS'`
  pub verified : Bool
  pub verification_score : Option ℕ
  pub created_at : ℕ
  pub assigned_at : Option ℕ
  pub started_at : Option ℕ
  pub vm_internal_ip : Option ℕ
  pub launch_operation_key : Option ℕ
  pub max_duration_minutes : Option ℕ
  pub locked_spot_price_cents : Option ℕ
  pub last_agent_heartbeat_at : Option ℕ
  pub last_gpu_utilization_pct : Option ℕ
  pub last_error_code : Option ErrorCode
  pub proxmox_node : Option ℕ
  pub proxmox_vmid : Option ℕ
  pub termination_reason : Option String
  pub terminated_at : Option ℕ
  pub updated_at : ℕ
  pub cleanup_attempt_count : ℕ
  pub cleanup_last_attempt_at : Option ℕ
  pub cleanup_next_retry_at : Option ℕ
  pub cleanup_last_error_code : Option ErrorCode
  pub cleanup_last_error_message : Option String
  pub custom_image_repo : Option (List ℕ)
  pub custom_image_tag : Option (List ℕ)
  pub registry_credential_id : Option ℕ
  pub port_ssh : Option ℕ
  pub port_jupyter : Option ℕ
  pub port_vscode : Option ℕ
  pub vlan_tag : Option ℕ
  pub provision_started_at : Option ℕ
  pub clone_completed_at : Option ℕ
  pub gpu_attached_at : Option ℕ
  pub boot_completed_at : Option ℕ
  pub ip_discovered_at : Option ℕ
  pub agent_registered_at : Option ℕ
  pub failed_at : Option ℕ

-- What `workspace.create` fills in by default.
abbrev pub blank_workspace : ℕ → ℕ → ℕ → WorkspaceStatus → ℕ → Workspace
blank_workspace id gpu region status now = record {
  id = id;
  assigned_user_id = none;
  org_id = none;
  status = status;
  region = region;
  gpu_type = gpu;
  is_warm_pool = false;
  verified = false;
  verification_score = none;
  created_at = now;
  assigned_at = none;
  started_at = none;
  vm_internal_ip = none;
  launch_operation_key = none;
  max_duration_minutes = none;
  locked_spot_price_cents = none;
  last_agent_heartbeat_at = none;
  last_gpu_utilization_pct = none;
  last_error_code = none;
  proxmox_node = none;
  proxmox_vmid = none;
  termination_reason = none;
  terminated_at = none;
  updated_at = now;
  cleanup_attempt_count = 0;
  cleanup_last_attempt_at = none;
  cleanup_next_retry_at = none;
  cleanup_last_error_code = none;
  cleanup_last_error_message = none;
  custom_image_repo = none;
  custom_image_tag = none;
  registry_credential_id = none;
  port_ssh = none;
  port_jupyter = none;
  port_vscode = none;
  vlan_tag = none;
  provision_started_at = none;
  clone_completed_at = none;
  gpu_attached_at = none;
  boot_completed_at = none;
  ip_discovered_at = none;
  agent_registered_at = none;
  failed_at = none;
}

pub data JobStatus : Type 0 where
  pending running retry failed done : JobStatus

-- `status: { in: ['PENDING', 'RUNNING', 'RETRY'] }`
abbrev pub is_open : JobStatus → Bool
is_open pending = true
is_open running = true
is_open retry = true
is_open failed = false
is_open done = false

pub record CleanupJob : Type 0 where
  pub id : ℕ
  pub workspace_id : ℕ
  pub reason_code : String
  pub status : JobStatus
  pub attempt_count : ℕ
  pub max_attempts : ℕ
  pub last_attempt_at : Option ℕ
  pub next_attempt_at : Option ℕ
  pub last_error_code : Option ErrorCode
  pub last_error_message : Option String
  pub created_at : ℕ
  pub completed_at : Option ℕ

-- `FREE`, `ALLOCATED`, or another text.
pub data GpuStatus : Type 0 where
  free allocated out_of_service : GpuStatus

abbrev pub is_free : GpuStatus → Bool
is_free free = true
is_free allocated = false
is_free out_of_service = false

pub record FleetGpu : Type 0 where
  pub id : ℕ
  pub node_id : ℕ
  pub gpu_name : ℕ
  pub gpu_type : Option ℕ
  pub status : GpuStatus
  pub current_workspace_id : Option ℕ

pub record GpuAllocation : Type 0 where
  pub id : ℕ
  pub workspace_id : ℕ
  pub gpu_id : ℕ
  pub released_at : Option ℕ

pub data IncidentStatus : Type 0 where
  opened acked resolved : IncidentStatus

abbrev pub is_unresolved : IncidentStatus → Bool
is_unresolved opened = true
is_unresolved acked = true
is_unresolved resolved = false

-- An incident of type `workspace_cleanup_failed`, of the one workspace that its JSON names.
pub record Incident : Type 0 where
  pub workspace_id : ℕ
  pub status : IncidentStatus
  pub count : ℕ
  pub description : String
  pub last_seen_at : ℕ

-- The table of endpoints is the gateway's.
pub record Platform : Type 0 where
  pub workspaces : List Workspace
  pub jobs : List CleanupJob
  pub gpus : List FleetGpu
  pub allocations : List GpuAllocation
  pub incidents : List Incident
  pub ledger : Ledger
  pub gateway : Gateway

abbrev pub workspace_with_id : ℕ → Workspace → Bool
workspace_with_id id ws = ws.id == id

abbrev pub job_with_id : ℕ → CleanupJob → Bool
job_with_id id j = j.id == id

abbrev pub job_of : ℕ → CleanupJob → Bool
job_of workspace j = j.workspace_id == workspace

abbrev pub gpu_with_id : ℕ → FleetGpu → Bool
gpu_with_id id g = g.id == id

abbrev pub allocation_with_id : ℕ → GpuAllocation → Bool
allocation_with_id id a = a.id == id

abbrev pub gpu_of : ℕ → GpuAllocation → Bool
gpu_of workspace a = a.workspace_id == workspace

abbrev pub unresolved_of : ℕ → Incident → Bool
unresolved_of workspace i = i.workspace_id == workspace && is_unresolved i.status
