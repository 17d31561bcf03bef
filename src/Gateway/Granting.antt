-- ===== src/Gateway/Granting.antt =====
-- `allocate` (apps/gateway/src/index.ts) against the invariant of the leases, branch by branch.
use final_aldaro.Common.{
  ℕ, ◌≡◌, refl, ap, ◌∙◌, inl, inr, ◌||◌, true, none, some, List, ◌∷◌, arith, All-upsert, find_first,
  find_first-fits, any, Bool-cases, Option-cases,
}
use final_aldaro.Gateway.Leases.{
  Endpoint, Gateway, Env, is_active, endpoint_of, allocation_of, draw_port, new_allocation,
  persist_lease, allocate_new, restore_lease, allocate, clashes,
}
use final_aldaro.Gateway.Consistent.{Cached, IsConsistent}
use final_aldaro.Gateway.Allocating.{
  Drawn, Grows, draw_port-new, InSet-Grows, add-Grows, rollback-Grows, written-IsDurable,
  written-InSet, written-Cached,
}

-- Ports that enter the Set do no harm.
grown-IsConsistent :
    (g : Gateway) (ports : List ℕ)
    → Grows g.allocated_ports ports
    → IsConsistent g
    → IsConsistent (record g { allocated_ports = ports })
grown-IsConsistent g ports more v = record {
  durable = v.durable;
  in_set = InSet-Grows g.allocated_ports ports g.endpoints more v.in_set;
  cached = v.cached;
}

persist_lease-IsConsistent :
    (env : Env) (w ip p q r : ℕ) (g : Gateway)
    → Drawn g.allocated_ports p q r
    → find_first (allocation_of w) g.active_allocations ≡ none
    → IsConsistent g
    → IsConsistent
        (persist_lease env w ip p q r
          (record g { allocated_ports = r ∷ q ∷ p ∷ g.allocated_ports })).0
unfolding persist_lease
persist_lease-IsConsistent env w ip p q r g d absent v =
    elim (Bool-cases (env.fault || any (clashes w p q r) g.endpoints)) [
      | inl failed ↦ rw failed (grown-IsConsistent g _ (rollback-Grows p q r g.allocated_ports d) v)
      | inr fine ↦ rw fine (record {
        durable =
            written-IsDurable w p q r env.now ip g.endpoints g.allocated_ports d v.in_set v.durable;
        in_set = written-InSet w p q r env.now ip g.endpoints g.allocated_ports d v.in_set;
        cached =
            written-Cached w p q r env.now ip g.endpoints g.allocated_ports d g.active_allocations
              absent v.cached;
      })
    ]

allocate_new-IsConsistent :
    (env : Env) (w ip : ℕ) (g : Gateway)
    → find_first (allocation_of w) g.active_allocations ≡ none
    → IsConsistent g
    → IsConsistent (allocate_new env w ip g).0
unfolding allocate_new
allocate_new-IsConsistent env w ip g absent v =
    elim (Option-cases (draw_port env.random 1000 0 g.allocated_ports)) [
      | inl empty ↦ rw (empty, allocate_new) v
      | inr ((p, i), first) ↦
          let ports = p ∷ g.allocated_ports in
          elim (Option-cases (draw_port env.random 1000 i ports)) [
            | inl empty ↦
                rw (first, allocate_new)
                  (rw (empty, allocate_new) (grown-IsConsistent g ports (λ k h. ground arith) v))
            | inr ((q, j), second) ↦ elim (Option-cases (draw_port env.random 1000 j (q ∷ ports))) [
              | inl empty ↦
                  rw (first, allocate_new)
                    (rw (second, allocate_new)
                      (rw (empty, allocate_new)
                        (grown-IsConsistent g (q ∷ ports) (λ k h. ground arith) v)))
              | inr ((r, n), third) ↦
                  rw (first, allocate_new)
                    (rw (second, allocate_new)
                      (rw (third, allocate_new)
                        (persist_lease-IsConsistent env w ip p q r g
                          (record {
                            first = draw_port-new env.random 1000 0 g.allocated_ports p i first;
                            second = draw_port-new env.random 1000 i ports q j second;
                            third = draw_port-new env.random 1000 j (q ∷ ports) r n third;
                          })
                          absent v)))
            ]
          ]
    ]

restore_lease-IsConsistent :
    (ip : ℕ) (e : Endpoint) (g : Gateway)
    → find_first (endpoint_of e.workspace_id) g.endpoints ≡ some e
    → is_active e ≡ true
    → IsConsistent g
    → IsConsistent (restore_lease ip e g)
unfolding restore_lease
restore_lease-IsConsistent ip e g found live v = record {
  durable = v.durable;
  in_set =
      InSet-Grows g.allocated_ports _ g.endpoints
        (λ k h. add-Grows _ _ k (add-Grows _ _ k (add-Grows _ _ k h))) v.in_set;
  cached =
      All-upsert (Cached g.endpoints) (allocation_of e.workspace_id) _ _ g.active_allocations
        (λ _ _ _. backed) backed v.cached;
}
  where
    backed :
        Cached g.endpoints
          (new_allocation e.workspace_id e.ssh_port e.jupyter_port e.vscode_port ip)
    backed = (e, found, record { active = live; ssh = refl; jupyter = refl; vscode = refl })

own_row :
    (w : ℕ) (es : List Endpoint) (e : Endpoint)
    → find_first (endpoint_of w) es ≡ some e
    → find_first (endpoint_of e.workspace_id) es ≡ some e
own_row w es e found =
    let same : e.workspace_id ≡ w = ground (arith, find_first-fits (endpoint_of w) es e found) in
    ap (λ k. find_first (endpoint_of k) es) same ∙ found

-- Whatever `allocate` answers, and also when it throws, consistent leases stay consistent: no two
-- active leases share a port, the ports of one lease differ, each active lease has its ports in
-- the Set, and each entry of the Map is an active lease of the table.
pub allocate-IsConsistent :
    (env : Env) (w ip : ℕ) (g : Gateway) → IsConsistent g → IsConsistent (allocate env w ip g).0
unfolding allocate
allocate-IsConsistent env w ip g v =
    elim (Option-cases (find_first (allocation_of w) g.active_allocations)) [
      | inr (a, cached) ↦ rw (cached, allocate) v
      | inl absent ↦
          let fresh = allocate_new-IsConsistent env w ip g absent v in
          elim (Option-cases (find_first (endpoint_of w) g.endpoints)) [
            | inl no_row ↦ rw (absent, allocate) (rw (no_row, allocate) fresh)
            | inr (e, found) ↦ elim (Bool-cases (is_active e)) [
              | inl live ↦
                  rw (absent, allocate)
                    (rw (found, allocate)
                      (rw (live, allocate)
                        (restore_lease-IsConsistent ip e g (own_row w g.endpoints e found) live v)))
              | inr dead ↦ rw (absent, allocate) (rw (found, allocate) (rw (dead, allocate) fresh))
            ]
          ]
    ]
