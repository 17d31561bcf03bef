-- ===== src/Gateway/Boot.antt =====
-- `reconcileLeases` of apps/gateway/src/index.ts: at boot the Map and the Set are rebuilt from the
-- active rows, and the leases of workspaces that are TERMINATED or FAILED are ended. What the table
-- of workspaces says of an address and of a status is an argument. A row is named by its unique
-- workspace, as the source names it by its id. The cache of exposed ports is not modelled.
use final_aldaro.Common.{ℕ, Bool, List, [], ◌∷◌, ◌&&◌, find_many, update_many, delete_many}
use final_aldaro.Gateway.Leases.{
  Endpoint, Gateway, is_active, endpoint_of, allocation_of, remove_all, set_released, restore_lease,
}

-- The first loop; its body fills the cache as `allocate` does for a lease that it finds.
unfoldable pub load_each : (ℕ → ℕ) → List Endpoint → Gateway → Gateway
load_each ip_of [] g = g
load_each ip_of (e ∷ es) g = load_each ip_of es (restore_lease (ip_of e.workspace_id) e g)

-- The body of the second loop.
unfoldable pub end_stale : ℕ → Endpoint → Gateway → Gateway
end_stale now e g = record {
  endpoints = update_many (endpoint_of e.workspace_id) (set_released now) g.endpoints;
  active_allocations = delete_many (allocation_of e.workspace_id) g.active_allocations;
  allocated_ports = remove_all e.ssh_port e.jupyter_port e.vscode_port g.allocated_ports;
}

unfoldable pub end_each : (Endpoint → ℕ) → List Endpoint → Gateway → Gateway
end_each clock [] g = g
end_each clock (e ∷ es) g = end_each clock es (end_stale (clock e) e g)

-- `gone` holds of a workspace whose status is TERMINATED or FAILED when the second query runs.
abbrev pub is_stale : (ℕ → Bool) → Endpoint → Bool
is_stale gone e = is_active e && gone e.workspace_id

unfoldable pub reconcile_leases : (ℕ → ℕ) → (ℕ → Bool) → (Endpoint → ℕ) → Gateway → Gateway
reconcile_leases ip_of gone clock g =
    let loaded = load_each ip_of (find_many is_active g.endpoints) g in
    end_each clock (find_many (is_stale gone) loaded.endpoints) loaded
