-- ===== src/Gateway/Leases.antt =====
-- Port leases of the gateway (apps/gateway/src/index.ts): `getUniquePort`, the routes `allocate` and
-- `release`, and `reconcileLeases`. The table `workspace_endpoints` is the source of truth; the Map
-- and the Set of the process are a cache. Random draws, the clock, faults of the database and what
-- the table of workspaces says are arguments.
use final_aldaro.Common.{
  ℕ, zero, suc, ◌+◌, Bool, not, Option, none, some, List, ◌∷◌, ◌==◌, ◌||◌, ◌&&◌, if◌then◌else◌, ltb,
  is_some, any, count, find_first, update_many, delete_many, upsert,
}

pub record Endpoint : Type 0 where
  pub workspace_id : ℕ
  pub ssh_port : ℕ
  pub jupyter_port : ℕ
  pub vscode_port : ℕ
  pub allocated_at : ℕ
  pub released_at : Option ℕ

-- An entry of the Map `activeAllocations`. The address of a VM is opaque; 0 is the empty text.
pub record Allocation : Type 0 where
  pub workspace_id : ℕ
  pub ssh : ℕ
  pub jupyter : ℕ
  pub vscode : ℕ
  pub ip : ℕ

pub record Gateway : Type 0 where
  pub endpoints : List Endpoint
  pub active_allocations : List Allocation
  pub allocated_ports : List ℕ

-- The Set `allocatedPorts`.
abbrev pub has : ℕ → List ℕ → Bool
has p = any (λ q. q == p)

abbrev pub add : ℕ → List ℕ → List ℕ
add p ports = if has p ports then ports else p ∷ ports

abbrev pub remove : ℕ → List ℕ → List ℕ
remove p = delete_many (λ q. q == p)

abbrev pub add_all : ℕ → ℕ → ℕ → List ℕ → List ℕ
add_all p q r ports = add r (add q (add p ports))

abbrev pub remove_all : ℕ → ℕ → ℕ → List ℕ → List ℕ
remove_all p q r ports = remove r (remove q (remove p ports))

abbrev pub is_active : Endpoint → Bool
is_active e = not (is_some e.released_at)

abbrev pub endpoint_of : ℕ → Endpoint → Bool
endpoint_of w e = e.workspace_id == w

abbrev pub allocation_of : ℕ → Allocation → Bool
allocation_of w a = a.workspace_id == w

abbrev pub port_range_start : ℕ
port_range_start = 20_000

abbrev pub port_range_end : ℕ
port_range_end = 40_000

-- The loop of `getUniquePort`, after `i` draws, with `attempts` left of its 1000: the port, and the
-- number of draws made. `none` is the error "pool exhausted".
unfoldable pub draw_port : (ℕ → ℕ) → ℕ → ℕ → List ℕ → Option (ℕ × ℕ)
draw_port random zero i ports = none
draw_port random (suc attempts) i ports =
    let port = random i + port_range_start in
    let again = draw_port random attempts (i + 1) ports in
    if has port ports then again else some (port, i + 1)

-- What the surroundings answer while a request is served.
pub record Env : Type 0 where
  -- `Math.floor(Math.random() * 20000)` at each draw
  pub random : ℕ → ℕ
  pub now : ℕ
  -- the write to the database throws
  pub fault : Bool

pub data Reply : Type 0 where
  granted : (ssh jupyter vscode : ℕ) → Reply
  threw : Reply

-- Another row holds one of the ports in the same column: the unique indexes refuse the write.
abbrev pub clashes : ℕ → ℕ → ℕ → ℕ → Endpoint → Bool
clashes w p q r e =
    not (endpoint_of w e) && (e.ssh_port == p || (e.jupyter_port == q || e.vscode_port == r))

abbrev pub lease_row : ℕ → ℕ → ℕ → ℕ → ℕ → Endpoint
lease_row w p q r now = record {
  workspace_id = w;
  ssh_port = p;
  jupyter_port = q;
  vscode_port = r;
  allocated_at = now;
  released_at = none;
}

-- What the update writes to the workspace's row: a released lease is taken over.
abbrev pub renew_lease : ℕ → ℕ → ℕ → ℕ → Endpoint → Endpoint
renew_lease p q r now e = record e {
  ssh_port = p;
  jupyter_port = q;
  vscode_port = r;
  allocated_at = now;
  released_at = none;
}

abbrev pub new_allocation : ℕ → ℕ → ℕ → ℕ → ℕ → Allocation
new_allocation w p q r ip = record { workspace_id = w; ssh = p; jupyter = q; vscode = r; ip = ip }

-- The write of three new ports: on a fault they leave the Set again, and the error goes on.
unfoldable pub persist_lease : Env → ℕ → ℕ → (p q r : ℕ) → Gateway → Gateway × Reply
persist_lease env w ip p q r g =
    if env.fault || any (clashes w p q r) g.endpoints
    then (record g { allocated_ports = remove_all p q r g.allocated_ports }, threw)
    else (
      record g {
        endpoints =
            upsert (endpoint_of w) (renew_lease p q r env.now) (lease_row w p q r env.now)
              g.endpoints;
        active_allocations =
            upsert (allocation_of w) (λ _. new_allocation w p q r ip) (new_allocation w p q r ip)
              g.active_allocations;
      },
      granted p q r,
    )

-- Three ports are drawn, each one entering the Set at once. An exhausted pool throws, and the ports
-- that were drawn before it stay in the Set.
unfoldable pub allocate_new : Env → ℕ → ℕ → Gateway → Gateway × Reply
unfolding persist_lease
allocate_new env w ip g = elim (draw_port env.random 1000 0 g.allocated_ports) [
  | none ↦ (g, threw)
  | some (p, i) ↦
      let with_p : List ℕ = p ∷ g.allocated_ports in
      elim (draw_port env.random 1000 i with_p) [
        | none ↦ (record g { allocated_ports = with_p }, threw)
        | some (q, j) ↦
            let with_q : List ℕ = q ∷ with_p in
            elim (draw_port env.random 1000 j with_q) [
              | none ↦ (record g { allocated_ports = with_q }, threw)
              | some (r, k) ↦
                  persist_lease env w ip p q r (record g { allocated_ports = r ∷ with_q })
            ]
      ]
]

-- A lease that the database has and the cache lacks enters the cache.
unfoldable pub restore_lease : ℕ → Endpoint → Gateway → Gateway
restore_lease ip e g = record g {
  active_allocations =
      let a = new_allocation e.workspace_id e.ssh_port e.jupyter_port e.vscode_port ip in
      upsert (allocation_of e.workspace_id) (λ _. a) a g.active_allocations;
  allocated_ports = add_all e.ssh_port e.jupyter_port e.vscode_port g.allocated_ports;
}

-- `POST /internal/gateway/allocate`
unfoldable pub allocate : Env → ℕ → ℕ → Gateway → Gateway × Reply
unfolding allocate_new restore_lease
allocate env w ip g = elim (find_first (allocation_of w) g.active_allocations) [
  | some a ↦ (g, granted a.ssh a.jupyter a.vscode)
  | none ↦ elim (find_first (endpoint_of w) g.endpoints) [
    | none ↦ allocate_new env w ip g
    | some e ↦
        if is_active e
        then (restore_lease ip e g, granted e.ssh_port e.jupyter_port e.vscode_port)
        else allocate_new env w ip g
  ]
]

abbrev pub set_released : ℕ → Endpoint → Endpoint
set_released now e = record e { released_at = some now }

abbrev pub active_of : ℕ → Endpoint → Bool
active_of w e = endpoint_of w e && is_active e

unfoldable pub forget_lease : ℕ → Gateway → Gateway
forget_lease w g = elim (find_first (allocation_of w) g.active_allocations) [
  | none ↦ g
  | some a ↦ record g {
    active_allocations = delete_many (allocation_of w) g.active_allocations;
    allocated_ports = remove_all a.ssh a.jupyter a.vscode g.allocated_ports;
  }
]

-- `POST /internal/gateway/release`, with the field `released` of its answer.
unfoldable pub release : ℕ → ℕ → Gateway → Gateway × Bool
unfolding forget_lease
release now w g = (
  forget_lease w
      (record g { endpoints = update_many (active_of w) (set_released now) g.endpoints }),
  ltb 0 (count (active_of w) g.endpoints),
)
