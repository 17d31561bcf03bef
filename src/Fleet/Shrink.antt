-- ===== src/Fleet/Shrink.antt =====
-- `terminateWorkspace` of worker/src/jobs/warm-pool.ts, with `releaseGatewayPorts`. What Proxmox throws is logged.
use final_aldaro.Common.{ℕ, String, true, false, Option, none, some, find_first, update_many}
use final_aldaro.Billing.Close.{Surroundings, finalize_usage_sessions}
use final_aldaro.Billing.Rows.{Ledger, Failure}
use final_aldaro.Cleanup.Rows.{
  Workspace, Platform, GpuAllocation, terminating, terminated, workspace_with_id, gpu_with_id,
  gpu_of, allocation_with_id,
}
use final_aldaro.Cleanup.Attempt.{Call, answered, lost, free_gpu, release_allocation}
use final_aldaro.Gateway.Leases.{Gateway, endpoint_of, set_released, release}

pub record Stop : Type 0 where
  pub now : ℕ
  pub call : Call
  pub sessions : Surroundings

abbrev pub terminating_row : String → ℕ → Workspace → Workspace
terminating_row reason now ws = record ws {
  status = terminating;
  termination_reason = some reason;
  updated_at = now;
}

abbrev pub terminated_row : ℕ → Workspace → Workspace
terminated_row now ws = record ws {
  status = terminated;
  terminated_at = some now;
  updated_at = now;
}

abbrev pub change_row : ℕ → (Workspace → Workspace) → Platform → Platform
change_row w f p = record p { workspaces = update_many (workspace_with_id w) f p.workspaces }

-- Two updates, each of which is taken to succeed.
unfoldable pub release_gpu_of : ℕ → Option GpuAllocation → Platform → Platform
release_gpu_of now none p = p
release_gpu_of now (some a) p = record p {
  gpus = update_many (gpu_with_id a.gpu_id) free_gpu p.gpus;
  allocations = update_many (allocation_with_id a.id) (release_allocation now) p.allocations;
}

-- The call of the gateway, and the write of the endpoint, which happens in any case.
unfoldable pub release_ports : Stop → ℕ → Platform → Platform
release_ports t w p =
    let gateway : Gateway = elim t.call [
      | answered ↦ (release t.now w p.gateway).0
      | lost true f ↦ (release t.now w p.gateway).0
      | lost false f ↦ p.gateway
    ] in
    record p {
      gateway = record gateway {
        endpoints = update_many (endpoint_of w) (set_released t.now) gateway.endpoints;
      };
    }

-- An error of a close is thrown, and the workspace stays TERMINATING.
unfoldable pub after_sessions : (now workspace : ℕ) → Platform → Ledger × Option Failure → Platform
after_sessions now w p (l, none) = change_row w (terminated_row now) (record p { ledger = l })
after_sessions now w p (l, some f) = record p { ledger = l }

unfoldable pub end_sessions : Stop → ℕ → Platform → Platform
unfolding after_sessions
end_sessions t w p = after_sessions t.now w p (finalize_usage_sessions t.sessions w p.ledger)

unfoldable pub terminate_found : Stop → String → ℕ → Platform → Platform
unfolding release_gpu_of release_ports end_sessions
terminate_found t reason w p = end_sessions t w (
    release_ports t w (
      release_gpu_of t.now (find_first (gpu_of w) p.allocations)
        (change_row w (terminating_row reason t.now) p)))

unfoldable pub terminate_workspace : Stop → String → ℕ → Platform → Platform
unfolding terminate_found
terminate_workspace t reason w p = elim (find_first (workspace_with_id w) p.workspaces) [
  | none ↦ p
  | some ws ↦ terminate_found t reason w p
]
