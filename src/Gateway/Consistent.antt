-- ===== src/Gateway/Consistent.antt =====
-- The invariant of the gateway's leases.
use final_aldaro.Common.{ℕ, ◌≡◌, ◌≢◌, true, some, List, All, Distinct, Pairwise, find_first}
use final_aldaro.Gateway.Leases.{Endpoint, Allocation, Gateway, is_active, endpoint_of, has}

-- The port is none of the row's.
abbrev pub Avoids : Endpoint → ℕ → Type 0
Avoids e p = (e.ssh_port ≢ p) × (e.jupyter_port ≢ p) × (e.vscode_port ≢ p)

-- Two leases that are both active share no port.
abbrev pub Separate : Endpoint → Endpoint → Type 0
Separate e f =
    is_active e ≡ true
    → is_active f ≡ true
    → Avoids e f.ssh_port × Avoids e f.jupyter_port × Avoids e f.vscode_port

abbrev pub Within : Endpoint → Type 0
Within e =
    is_active e ≡ true
    → (e.ssh_port ≢ e.jupyter_port)
      × (e.ssh_port ≢ e.vscode_port)
      × (e.jupyter_port ≢ e.vscode_port)

-- The Set has the ports of an active lease.
abbrev pub InSet : List ℕ → Endpoint → Type 0
InSet ports e =
    is_active e ≡ true
    → (has e.ssh_port ports ≡ true)
      × (has e.jupyter_port ports ≡ true)
      × (has e.vscode_port ports ≡ true)

-- The row is an active lease of the same ports as the entry of the Map.
pub record Backs (a : Allocation) (e : Endpoint) : Type 0 where
  pub active : is_active e ≡ true
  pub ssh : e.ssh_port ≡ a.ssh
  pub jupyter : e.jupyter_port ≡ a.jupyter
  pub vscode : e.vscode_port ≡ a.vscode

abbrev pub Cached : List Endpoint → Allocation → Type 0
Cached es a = (e : Endpoint) × (find_first (endpoint_of a.workspace_id) es ≡ some e) × Backs a e

-- The part of the invariant that the database holds alone, and that a crash cannot touch.
pub record IsDurable (es : List Endpoint) : Type 0 where
  pub rows : Distinct (λ (e : Endpoint). e.workspace_id) es
  pub separate : Pairwise Separate es
  pub within : All Within es

pub record IsConsistent (g : Gateway) : Type 0 where
  pub durable : IsDurable g.endpoints
  pub in_set : All (InSet g.allocated_ports) g.endpoints
  pub cached : All (Cached g.endpoints) g.active_allocations
