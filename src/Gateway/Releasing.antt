-- ===== src/Gateway/Releasing.antt =====
-- `release` (apps/gateway/src/index.ts) against the invariant of the leases.
use final_aldaro.Common.{
  ℕ, ◌≡◌, refl, subst, ◌≢◌, inl, inr, false, none, some, List, [], ◌∷◌, arith, All, All-map,
  All-both, All-delete_many, All-find_first, find_first, find_first-fits, find_first-absent,
  find_first-update_many_other, find_first-delete_many, count-any, update_many, any, Bool-cases,
  Option-cases, Pairwise-find_first,
}
use final_aldaro.Gateway.Leases.{
  Endpoint, Gateway, endpoint_of, allocation_of, active_of, remove_all, set_released, forget_lease,
  release,
}
use final_aldaro.Gateway.Consistent.{Separate, InSet, Cached, IsConsistent}
use final_aldaro.Gateway.Ending.{
  Separate-sym, active_of-Picks, after, after-IsDurable, after-Other, after-Cached, kept,
}

-- `release` keeps consistent leases consistent: the ports of the other active leases stay in the
-- Set.
pub release-IsConsistent :
    (now w : ℕ) (g : Gateway) → IsConsistent g → IsConsistent (release now w g).0
unfolding release forget_lease
release-IsConsistent now w g v =
    elim (Option-cases (find_first (allocation_of w) g.active_allocations)) [
      | inl absent ↦
          rw (absent, release, forget_lease)
            (record {
              durable =
                  after-IsDurable now w (active_of w) (active_of-Picks w) g.endpoints v.durable;
              in_set =
                  All-map _ (InSet g.allocated_ports) _ (λ e h live. (h live).1 live)
                    (after-Other now w (active_of w) (active_of-Picks w) g.endpoints _ v.in_set);
              cached =
                  All-map _ (Cached (after now w (active_of w) (active_of-Picks w) g.endpoints))
                    g.active_allocations
                    (λ a both.
                      after-Cached now w (active_of w) (active_of-Picks w) g.endpoints a both.0
                        both.1)
                    (All-both _ _ g.active_allocations v.cached
                      (find_first-absent (allocation_of w) g.active_allocations absent));
            })
      | inr (a, mapped) ↦
          let in_es : Cached g.endpoints a =
            All-find_first (Cached g.endpoints) (allocation_of w) g.active_allocations a v.cached
              mapped in
          let own : a.workspace_id ≡ w =
            ground (arith, find_first-fits (allocation_of w) g.active_allocations a mapped) in
          let (e, found, b) = in_es in
          let apart =
            Pairwise-find_first Separate (endpoint_of w) g.endpoints e Separate-sym
              v.durable.separate
              (subst (λ k. find_first (endpoint_of k) g.endpoints ≡ some e) own found) in
          rw (mapped, release, forget_lease)
            (record {
              durable =
                  after-IsDurable now w (active_of w) (active_of-Picks w) g.endpoints v.durable;
              in_set =
                  All-map _ (InSet (remove_all a.ssh a.jupyter a.vscode g.allocated_ports)) _
                    (λ x h live.
                      let (miss, both) = h live in
                      kept a e x g.allocated_ports b (both.0 miss) live both.1)
                    (after-Other now w (active_of w) (active_of-Picks w) g.endpoints _
                      (All-both _ _ g.endpoints apart v.in_set));
              cached =
                  All-delete_many (Cached g.endpoints)
                    (Cached (after now w (active_of w) (active_of-Picks w) g.endpoints))
                    (allocation_of w) g.active_allocations
                    (λ x h miss.
                      after-Cached now w (active_of w) (active_of-Picks w) g.endpoints x h miss)
                    v.cached;
            })
    ]

after-none :
    (now w : ℕ) (es : List Endpoint)
    → All (λ e. active_of w e ≡ false) (update_many (active_of w) (set_released now) es)
after-none now w [] = tt
after-none now w (e ∷ es) = elim (Bool-cases (active_of w e)) [
  | inl hit ↦ rw hit (ground arith, after-none now w es)
  | inr miss ↦ rw miss (miss, after-none now w es)
]

forget_lease-keeps : (w : ℕ) (g : Gateway) → (forget_lease w g).endpoints ≡ g.endpoints
unfolding forget_lease
forget_lease-keeps w g = elim (Option-cases (find_first (allocation_of w) g.active_allocations)) [
  | inl absent ↦ rw (absent, forget_lease) refl
  | inr (a, mapped) ↦ rw (mapped, forget_lease) refl
]

forget_lease-forgets :
    (w : ℕ) (g : Gateway)
    → find_first (allocation_of w) (forget_lease w g).active_allocations ≡ none
unfolding forget_lease
forget_lease-forgets w g = elim (Option-cases (find_first (allocation_of w) g.active_allocations)) [
  | inl absent ↦ rw (absent, forget_lease) absent
  | inr (a, mapped) ↦
      rw (mapped, forget_lease) (find_first-delete_many (allocation_of w) g.active_allocations)
]

-- After `release` the workspace has no active lease and no entry in the Map, another workspace's
-- row is as it was, and the answer says whether there was an active lease.
pub release-ends :
    (now w k : ℕ) (g : Gateway)
    → k ≢ w
    → All (λ e. active_of w e ≡ false) (release now w g).0.endpoints
      × (find_first (allocation_of w) (release now w g).0.active_allocations ≡ none)
      × (find_first (endpoint_of k) (release now w g).0.endpoints
          ≡ find_first (endpoint_of k) g.endpoints)
      × ((release now w g).1 ≡ any (active_of w) g.endpoints)
unfolding release
release-ends now w k g other =
    let g' = record g { endpoints = update_many (active_of w) (set_released now) g.endpoints } in
    let same = forget_lease-keeps w g' in
    (
      rw same (after-none now w g.endpoints),
      forget_lease-forgets w g',
      rw same (
          find_first-update_many_other (active_of w) (endpoint_of k) (set_released now) g.endpoints
            (λ x hit. (ground arith, ground arith))),
      count-any (active_of w) g.endpoints,
    )
