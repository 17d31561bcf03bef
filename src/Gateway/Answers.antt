-- ===== src/Gateway/Answers.antt =====
-- What the answers of `allocate` promise.
use mathlib.Core.Path.{subst}
use final_aldaro.Common.{
  find_first-set, ℕ, ◌≡◌, refl, ◌∙◌, inl, inr, ◌||◌, true, some, List, ◌∷◌, arith, find_first,
  find_first-fits, upsert, any, Bool-cases, Option-cases, ==_refl, All-find_first,
}
use final_aldaro.Gateway.Leases.{
  Endpoint, Allocation, Gateway, Env, Reply, granted, threw, is_active, endpoint_of, allocation_of,
  draw_port, new_allocation, persist_lease, allocate_new, restore_lease, allocate, clashes,
}
use final_aldaro.Gateway.Consistent.{Cached, IsConsistent}
use final_aldaro.Gateway.Granting.{allocate-IsConsistent}

-- The Map answers for the workspace, with these ports.
abbrev pub Answers : Gateway → ℕ → ℕ → ℕ → ℕ → Type 0
Answers g w p q r =
    (a : Allocation) × (find_first (allocation_of w) g.active_allocations ≡ some a)
    × ((a.ssh ≡ p) × (a.jupyter ≡ q) × (a.vscode ≡ r))

-- What an answer says of the gateway before and after: a refusal leaves the table and the Map.
abbrev pub Outcome : ℕ → Gateway → Gateway → Reply → Type 0
Outcome w g g' (granted p q r) = Answers g' w p q r
Outcome w g g' threw = (g'.endpoints ≡ g.endpoints) × (g'.active_allocations ≡ g.active_allocations)

restored :
    (w ip : ℕ) (e : Endpoint) (allocs : List Allocation)
    → e.workspace_id ≡ w
    → (a : Allocation) × (find_first (allocation_of w) (
          upsert
            (allocation_of e.workspace_id)
            (λ _. new_allocation e.workspace_id e.ssh_port e.jupyter_port e.vscode_port ip)
            (new_allocation e.workspace_id e.ssh_port e.jupyter_port e.vscode_port ip)
            allocs)
        ≡ some a)
      × ((a.ssh ≡ e.ssh_port) × (a.jupyter ≡ e.jupyter_port) × (a.vscode ≡ e.vscode_port))
restored w ip e allocs same =
    let a = new_allocation e.workspace_id e.ssh_port e.jupyter_port e.vscode_port ip in
    (
      a,
      subst
          (λ k.
            find_first (allocation_of k) (upsert (allocation_of e.workspace_id) (λ _. a) a allocs)
            ≡ some a)
          same (find_first-set (allocation_of e.workspace_id) a allocs (==_refl e.workspace_id)),
      (refl, refl, refl),
    )

persist_lease-Outcome :
    (env : Env) (w ip p q r : ℕ) (g : Gateway) (ports : List ℕ)
    → Outcome w g
        (persist_lease env w ip p q r (record g { allocated_ports = ports })).0
        (persist_lease env w ip p q r (record g { allocated_ports = ports })).1
unfolding persist_lease
persist_lease-Outcome env w ip p q r g ports =
    elim (Bool-cases (env.fault || any (clashes w p q r) g.endpoints)) [
      | inl failed ↦ rw failed (refl, refl)
      | inr fine ↦ rw fine (
        new_allocation w p q r ip,
        find_first-set (allocation_of w) (new_allocation w p q r ip) g.active_allocations
            (==_refl w),
        (refl, refl, refl),
      )
    ]

allocate_new-Outcome :
    (env : Env) (w ip : ℕ) (g : Gateway)
    → Outcome w g (allocate_new env w ip g).0 (allocate_new env w ip g).1
unfolding allocate_new
allocate_new-Outcome env w ip g =
    elim (Option-cases (draw_port env.random 1000 0 g.allocated_ports)) [
      | inl empty ↦ rw (empty, allocate_new) (refl, refl)
      | inr ((p, i), first) ↦
          let ports = p ∷ g.allocated_ports in
          elim (Option-cases (draw_port env.random 1000 i ports)) [
            | inl empty ↦ rw (first, allocate_new) (rw (empty, allocate_new) (refl, refl))
            | inr ((q, j), second) ↦ elim (Option-cases (draw_port env.random 1000 j (q ∷ ports))) [
              | inl empty ↦
                  rw (first, allocate_new)
                    (rw (second, allocate_new) (rw (empty, allocate_new) (refl, refl)))
              | inr ((r, n), third) ↦
                  rw (first, allocate_new)
                    (rw (second, allocate_new)
                      (rw (third, allocate_new)
                        (persist_lease-Outcome env w ip p q r g (r ∷ q ∷ ports))))
            ]
          ]
    ]

-- A grant is in the Map; a refusal leaves the table and the Map as they were.
allocate-Outcome :
    (env : Env) (w ip : ℕ) (g : Gateway)
    → Outcome w g (allocate env w ip g).0 (allocate env w ip g).1
unfolding allocate restore_lease
allocate-Outcome env w ip g =
    let fresh = allocate_new-Outcome env w ip g in
    elim (Option-cases (find_first (allocation_of w) g.active_allocations)) [
      | inr (a, cached) ↦ rw (cached, allocate) (a, cached, (refl, refl, refl))
      | inl absent ↦ elim (Option-cases (find_first (endpoint_of w) g.endpoints)) [
        | inl no_row ↦ rw (absent, allocate) (rw (no_row, allocate) fresh)
        | inr (e, found) ↦ elim (Bool-cases (is_active e)) [
          | inl live ↦
              rw (absent, allocate)
                (rw (found, allocate)
                  (rw (live, allocate)
                    (restored w ip e g.active_allocations
                      (ground (arith, find_first-fits (endpoint_of w) g.endpoints e found)))))
          | inr dead ↦ rw (absent, allocate) (rw (found, allocate) (rw (dead, allocate) fresh))
        ]
      ]
    ]

Outcome-Answers :
    (w : ℕ) (g g' : Gateway) (reply : Reply) (p q r : ℕ)
    → reply ≡ granted p q r
    → Outcome w g g' reply
    → Answers g' w p q r
Outcome-Answers w g g' (granted s j v) p q r e h =
    let (a, found, same) = h in
    let ssh = same.0 in let jupyter = same.1 in let vscode = same.2 in (a, found, (cc, cc, cc))
Outcome-Answers w g g' threw p q r e h = cc

answered :
    (env : Env) (w ip p q r : ℕ) (g : Gateway)
    → Answers g w p q r
    → allocate env w ip g ≡ (g, granted p q r)
unfolding allocate
answered env w ip p q r g (a, found, same) = rw (found, allocate) (rw (same.0, same.1, same.2) refl)

granted-Answers :
    (env : Env) (w ip p q r : ℕ) (g : Gateway)
    → (allocate env w ip g).1 ≡ granted p q r
    → Answers (allocate env w ip g).0 w p q r
granted-Answers env w ip p q r g e =
    Outcome-Answers w g (allocate env w ip g).0 (allocate env w ip g).1 p q r e
      (allocate-Outcome env w ip g)

-- A grant is idempotent: a second request for the workspace, whatever the draws, the address and
-- the database do by then, is answered with the same ports and changes nothing.
pub allocate-again :
    (env env' : Env) (w ip ip' p q r : ℕ) (g : Gateway)
    → (allocate env w ip g).1 ≡ granted p q r
    → allocate env' w ip' (allocate env w ip g).0 ≡ ((allocate env w ip g).0, granted p q r)
allocate-again env env' w ip ip' p q r g e =
    answered env' w ip' p q r (allocate env w ip g).0 (granted-Answers env w ip p q r g e)

-- From consistent leases, a grant is durable: the workspace's row is an active lease of the ports
-- that were granted.
pub allocate-leases :
    (env : Env) (w ip p q r : ℕ) (g : Gateway)
    → IsConsistent g
    → (allocate env w ip g).1 ≡ granted p q r
    → (e : Endpoint) × (find_first (endpoint_of w) (allocate env w ip g).0.endpoints ≡ some e)
      × ((is_active e ≡ true) × (e.ssh_port ≡ p) × (e.jupyter_port ≡ q) × (e.vscode_port ≡ r))
allocate-leases env w ip p q r g v e =
    backed (allocate env w ip g).0 (granted-Answers env w ip p q r g e)
      (allocate-IsConsistent env w ip g v)
  where
    backed :
        (g' : Gateway)
        → Answers g' w p q r
        → IsConsistent g'
        → (e : Endpoint) × (find_first (endpoint_of w) g'.endpoints ≡ some e)
          × ((is_active e ≡ true) × (e.ssh_port ≡ p) × (e.jupyter_port ≡ q) × (e.vscode_port ≡ r))
    backed g' (a, in_map, same) v' =
        let own : a.workspace_id ≡ w =
          ground (arith, find_first-fits (allocation_of w) g'.active_allocations a in_map) in
        let (e, found, b) =
          All-find_first (Cached g'.endpoints) (allocation_of w) g'.active_allocations a v'.cached
            in_map in
        (
          e,
          subst (λ k. find_first (endpoint_of k) g'.endpoints ≡ some e) own found,
          (b.active, b.ssh ∙ same.0, b.jupyter ∙ same.1, b.vscode ∙ same.2),
        )

Outcome-refused :
    (w : ℕ) (g g' : Gateway) (reply : Reply)
    → reply ≡ threw
    → Outcome w g g' reply
    → (g'.endpoints ≡ g.endpoints) × (g'.active_allocations ≡ g.active_allocations)
Outcome-refused w g g' (granted p q r) e h = cc
Outcome-refused w g g' threw e h = h

-- A refusal writes neither the table nor the Map.
pub allocate-refused :
    (env : Env) (w ip : ℕ) (g : Gateway)
    → (allocate env w ip g).1 ≡ threw
    → ((allocate env w ip g).0.endpoints ≡ g.endpoints)
      × ((allocate env w ip g).0.active_allocations ≡ g.active_allocations)
allocate-refused env w ip g e =
    Outcome-refused w g (allocate env w ip g).0 (allocate env w ip g).1 e
      (allocate-Outcome env w ip g)
