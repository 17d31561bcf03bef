-- ===== src/Launch/Assign.antt =====
-- How a launch gets its workspace: `findWarmWorkspace`, `assignWarmWorkspace`, `createColdWorkspace`,
-- `allocateGatewayPorts` and `startUsageSessionWithStatus` of apps/api/src/services/workspaceService.ts.
-- The texts of connection commands, made of random tokens, are left out.
use final_aldaro.Common.{
  ℕ, Bool, true, false, not, if◌then◌else◌, Option, none, some, List, [], ◌∷◌, ◌++◌, ◌==◌, ◌&&◌,
  is_some, or_else, find_first, find_many, update_many, upsert,
}
use final_aldaro.Billing.Catalog.{Catalog, spot_config, mark_rental, sku_of, resolve_price, GpuSku}
use final_aldaro.Billing.Start.{create_session, new_session}
use final_aldaro.Gateway.Leases.{
  Gateway, Endpoint, Reply, granted, threw, allocate, endpoint_of, lease_row,
}
use final_aldaro.Cleanup.Rows.{
  Workspace, is_warm_available, assigning, running_assigned, creating, blank_workspace,
  workspace_with_id,
}
use final_aldaro.Runs.Stages.{best_scored}
use final_aldaro.Launch.Image.{Image, parse_image}
use final_aldaro.Launch.Rows.{Desk, Request, Outside, Thrown, Call, answered, lost, error}

-- The tables after a part of a launch, and what it throws.
abbrev pub Act : Type 0
Act = Desk → Desk × Option Thrown

unfoldable pub go_on : Act → Desk × Option Thrown → Desk × Option Thrown
go_on second (d, none) = second d
go_on second (d, some t) = (d, some t)

unfoldable pub and_then : Act → Act → Act
unfolding go_on
and_then first second d = go_on second (first d)

abbrev pub on_workspaces : (List Workspace → List Workspace) → Desk → Desk
on_workspaces f d = record d {
  platform = record d.platform { workspaces = f d.platform.workspaces };
}

abbrev pub is_warm : Request → Workspace → Bool
is_warm r ws =
    is_warm_available ws.status
    && (ws.gpu_type == r.gpu_type
        && (ws.region == r.region
            && (not (is_some ws.assigned_user_id) && (ws.is_warm_pool && ws.verified))))

unfoldable pub find_warm_workspace : Request → Desk → Option Workspace
find_warm_workspace r d = best_scored (find_many (is_warm r) d.platform.workspaces)

abbrev pub image_repo : Option Image → Option (List ℕ)
image_repo none = none
image_repo (some i) = some i.repo

abbrev pub image_tag : Option Image → Option (List ℕ)
image_tag none = none
image_tag (some i) = some i.tag

abbrev pub claim_row : Request → ℕ → Workspace → Workspace
claim_row r now ws = record ws {
  assigned_user_id = some r.user_id;
  assigned_at = some now;
  is_warm_pool = false;
  status = assigning;
  launch_operation_key = some r.operation_key;
  max_duration_minutes = r.max_duration_minutes;
  custom_image_repo = image_repo (parse_image r.custom_image);
  custom_image_tag = image_tag (parse_image r.custom_image);
  registry_credential_id = r.registry_credential_id;
  updated_at = now;
}

-- Whether a workspace, as the transaction reads it, may be claimed.
abbrev pub is_taken : Option Workspace → Bool
is_taken none = true
is_taken (some ws) = is_some ws.assigned_user_id

unfoldable pub claim : Request → (now workspace : ℕ) → Act
claim r now workspace d =
    if is_taken (find_first (workspace_with_id workspace) d.platform.workspaces)
    then (d, some (error "WORKSPACE_ALREADY_ASSIGNED"))
    else (on_workspaces (update_many (workspace_with_id workspace) (claim_row r now)) d, none)

-- What the upsert writes to a lease that the gateway has made durable.
abbrev pub confirm_lease : (ssh jupyter vscode : ℕ) → Endpoint → Endpoint
confirm_lease p q s e = record e {
  ssh_port = p;
  jupyter_port = q;
  vscode_port = s;
  released_at = none;
}

abbrev pub port_row : (now ssh jupyter vscode : ℕ) → Workspace → Workspace
port_row now p q s ws = record ws {
  port_ssh = some p;
  port_jupyter = some q;
  port_vscode = some s;
  updated_at = now;
}

unfoldable pub write_ports : (now workspace : ℕ) → (ssh jupyter vscode : ℕ) → Desk → Desk
write_ports now w p q s d = record d {
  platform = record d.platform {
    gateway = record d.platform.gateway {
      endpoints =
          upsert (endpoint_of w) (confirm_lease p q s) (lease_row w p q s now)
            d.platform.gateway.endpoints;
    };
    workspaces = update_many (workspace_with_id w) (port_row now p q s) d.platform.workspaces;
  };
}

unfoldable pub take_reply : Outside → ℕ → Reply → Act
take_reply o w (granted p q s) d = (write_ports o.now w p q s d, none)
take_reply o w threw d = (d, some o.refusal)

abbrev pub on_gateway : Gateway → Desk → Desk
on_gateway g d = record d { platform = record d.platform { gateway = g } }

-- What the gateway did counts where it was reached, and its answer where the request went through.
unfoldable pub after_call : Outside → ℕ → Call → Gateway × Reply → Act
unfolding take_reply
after_call o w answered (g, reply) d = take_reply o w reply (on_gateway g d)
after_call o w (lost true t) (g, reply) d = (on_gateway g d, some t)
after_call o w (lost false t) (g, reply) d = (d, some t)

unfoldable pub allocate_gateway_ports : Outside → (workspace ip : ℕ) → Act
unfolding after_call
allocate_gateway_ports o w ip d =
    after_call o w o.call (allocate o.gateway w ip d.platform.gateway) d

abbrev pub run_row : ℕ → Workspace → Workspace
run_row now ws = record ws { status = running_assigned; updated_at = now }

-- The row of the session and the status of the workspace are written together; where a session is
-- there already, the status alone is.
unfoldable pub open_session : Outside → (user workspace gpu price : ℕ) → Desk → Desk
open_session o user w gpu price d = record d {
  platform = record d.platform {
    workspaces = update_many (workspace_with_id w) (run_row o.now) d.platform.workspaces;
    ledger =
        or_else (create_session (new_session o.session_id user w gpu o.now price) d.platform.ledger)
          d.platform.ledger;
  };
}

unfoldable pub start_usage_session_with_status : Outside → (user workspace gpu : ℕ) → Act
unfolding open_session
start_usage_session_with_status o user w gpu d = elim (resolve_price gpu none o.now d.catalog) [
  | none ↦ (
    d,
    some (error "[BILLING] GpuSku not found for key, cannot determine price. Launch blocked."),
  )
  | some (price, c) ↦ (open_session o user w gpu price (record d { catalog = c }), none)
]

-- The workspace is the row that was read, with the address that it had then.
unfoldable pub assign_warm_workspace : Outside → Request → Workspace → Act
unfolding and_then claim allocate_gateway_ports start_usage_session_with_status
assign_warm_workspace o r ws = and_then (claim r o.now ws.id) (
    and_then (allocate_gateway_ports o ws.id (or_else ws.vm_internal_ip 0))
      (start_usage_session_with_status o r.user_id ws.id ws.gpu_type))

abbrev pub list_price : Option GpuSku → Option ℕ
list_price none = none
list_price (some sku) = some sku.price_per_hour_cents

-- The price at the moment of the launch; a spot price counts as a rental.
unfoldable pub lock_price : (gpu now : ℕ) → Catalog → Option ℕ × Catalog
lock_price gpu now c = elim (spot_config gpu c) [
  | some cfg ↦ (some cfg.current_spot_price_cents, mark_rental cfg now c)
  | none ↦ (list_price (sku_of gpu c), c)
]

abbrev pub cold_workspace : Outside → Request → Option ℕ → Workspace
cold_workspace o r locked =
    record (blank_workspace o.workspace_id r.gpu_type r.region creating o.now) {
      assigned_user_id = some r.user_id;
      assigned_at = some o.now;
      launch_operation_key = some r.operation_key;
      max_duration_minutes = r.max_duration_minutes;
      custom_image_repo = image_repo (parse_image r.custom_image);
      custom_image_tag = image_tag (parse_image r.custom_image);
      registry_credential_id = r.registry_credential_id;
      locked_spot_price_cents = locked;
    }

unfoldable pub create_cold_workspace : Outside → Request → Desk → Desk
unfolding lock_price
create_cold_workspace o r d =
    let (locked, c) = lock_price r.gpu_type o.now d.catalog in
    on_workspaces (λ (wss : List Workspace). wss ++ cold_workspace o r locked ∷ [])
      (record d { catalog = c })
