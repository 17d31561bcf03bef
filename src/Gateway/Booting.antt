-- ===== src/Gateway/Booting.antt =====
-- The two loops of `reconcileLeases` (apps/gateway/src/index.ts) against the invariant of the leases.
use final_aldaro.Common.{
  ℕ, ◌≡◌, refl, ◌∙◌, Bool, true, false, some, List, [], ◌∷◌, arith, All, All-map, All-both,
  All-delete_many, All-find_many, All-find_many-fits, All-upsert, find_first, find_many, upsert,
  ==_refl, Distinct, Pairwise-find_first, find_first-Distinct, Distinct-find_many, All-fits,
}
use final_aldaro.Gateway.Leases.{
  Endpoint, Allocation, Gateway, is_active, endpoint_of, allocation_of, has, add, add_all,
  remove_all, new_allocation, restore_lease,
}
use final_aldaro.Gateway.Consistent.{Separate, InSet, Backs, Cached, IsDurable, IsConsistent}
use final_aldaro.Gateway.Allocating.{Grows, add-Grows}
use final_aldaro.Gateway.Ending.{
  Separate-sym, Picks, after, after-IsDurable, after-Other, after-found, after-Cached, kept,
}
use final_aldaro.Gateway.Boot.{load_each, end_stale, end_each, is_stale, reconcile_leases}

-- The row is active and is its workspace's in the table.
abbrev Live : List Endpoint → Endpoint → Type 0
Live es e = (is_active e ≡ true) × (find_first (endpoint_of e.workspace_id) es ≡ some e)

has-add : (p : ℕ) (ports : List ℕ) → has p (add p ports) ≡ true
has-add p ports = ground (arith, ==_refl p)

add_all-InSet :
    (e : Endpoint) (ports : List ℕ)
    → InSet (add_all e.ssh_port e.jupyter_port e.vscode_port ports) e
add_all-InSet e ports live =
    let s = add e.ssh_port ports in
    let j = add e.jupyter_port s in
    (
      add-Grows e.vscode_port j e.ssh_port
          (add-Grows e.jupyter_port s e.ssh_port (has-add e.ssh_port ports)),
      add-Grows e.vscode_port j e.jupyter_port (has-add e.jupyter_port s),
      has-add e.vscode_port j,
    )

-- What the first loop leaves: the same rows, the ports that were there, and those that it adds.
record Loaded (g g' : Gateway) (es : List Endpoint) : Type 0 where
  rows : g'.endpoints ≡ g.endpoints
  grows : Grows g.allocated_ports g'.allocated_ports
  in_set : All (InSet g'.allocated_ports) es
  cached : All (Cached g.endpoints) g'.active_allocations

load_each-Loaded :
    (ip_of : ℕ → ℕ) (es : List Endpoint) (g : Gateway)
    → All (Live g.endpoints) es
    → All (Cached g.endpoints) g.active_allocations
    → Loaded g (load_each ip_of es g) es
unfolding load_each restore_lease
load_each-Loaded ip_of [] g live h = record {
  rows = refl;
  grows = λ k h. h;
  in_set = tt;
  cached = h;
}
load_each-Loaded ip_of (e ∷ es) g live h =
    let rest = load_each-Loaded ip_of es (restore_lease (ip_of e.workspace_id) e g) live.1 step in
    record {
      rows = rest.rows;
      grows = λ k h. rest.grows k (add-Grows _ _ k (add-Grows _ _ k (add-Grows _ _ k h)));
      in_set = (head (load_each ip_of (e ∷ es) g).allocated_ports rest.grows, rest.in_set);
      cached = rest.cached;
    }
  where
    a : Allocation
    a = new_allocation e.workspace_id e.ssh_port e.jupyter_port e.vscode_port (ip_of e.workspace_id)

    step :
        All
          (Cached g.endpoints)
          (upsert (allocation_of e.workspace_id) (λ _. a) a g.active_allocations)
    step =
        let backed : Cached g.endpoints a =
          (e, live.0.1, record { active = live.0.0; ssh = refl; jupyter = refl; vscode = refl }) in
        All-upsert (Cached g.endpoints) (allocation_of e.workspace_id) _ _ g.active_allocations
          (λ _ _ _. backed) backed h

    head :
        (ports : List ℕ)
        → Grows (add_all e.ssh_port e.jupyter_port e.vscode_port g.allocated_ports) ports
        → InSet ports e
    head ports grows alive =
        let (s, j, v) = add_all-InSet e g.allocated_ports alive in
        (grows e.ssh_port s, grows e.jupyter_port j, grows e.vscode_port v)

-- The Map and the Set of a process that has just started.
pub record IsFresh (g : Gateway) : Type 0 where
  pub no_entries : g.active_allocations ≡ []
  pub no_ports : g.allocated_ports ≡ []

Live-active :
    (es : List Endpoint)
    → Distinct (λ (e : Endpoint). e.workspace_id) es
    → (p : Endpoint → Bool) → ((e : Endpoint) → p e ≡ true → is_active e ≡ true)
    → All (Live es) (find_many p es)
Live-active es d p live =
    All-map _ (Live es) (find_many p es) (λ e both. (live e both.0, both.1))
      (All-both _ _ (find_many p es) (All-find_many-fits p es)
        (All-find_many _ p es (find_first-Distinct (λ e. e.workspace_id) es d)))

loaded-IsConsistent :
    (ip_of : ℕ → ℕ) (g : Gateway)
    → IsFresh g
    → IsDurable g.endpoints
    → IsConsistent (load_each ip_of (find_many is_active g.endpoints) g)
      × ((load_each ip_of (find_many is_active g.endpoints) g).endpoints ≡ g.endpoints)
loaded-IsConsistent ip_of g fresh v =
    let l =
      load_each-Loaded ip_of (find_many is_active g.endpoints) g
        (Live-active g.endpoints v.rows is_active (λ e h. h)) (rw fresh.no_entries tt) in
    (
      record {
        durable = rw l.rows v;
        in_set = rw l.rows (
            All-map _ _ g.endpoints (λ e h live. h live live)
              (All-fits _ is_active g.endpoints l.in_set));
        cached = rw l.rows l.cached;
      },
      l.rows,
    )

end_stale-IsConsistent :
    (now : ℕ) (e : Endpoint) (g : Gateway)
    → Live g.endpoints e
    → IsConsistent g
    → IsConsistent (end_stale now e g)
unfolding end_stale
end_stale-IsConsistent now e g (live, found) v = record {
  durable = after-IsDurable now w p picks g.endpoints v.durable;
  in_set =
      All-map _ (InSet (remove_all e.ssh_port e.jupyter_port e.vscode_port g.allocated_ports)) _
        (λ x h alive.
          let (miss, both) = h alive in
          kept a e x g.allocated_ports backs (both.0 miss) alive both.1)
        (after-Other now w p picks g.endpoints _ (All-both _ _ g.endpoints apart v.in_set));
  cached =
      All-delete_many (Cached g.endpoints) (Cached (after now w p picks g.endpoints))
        (allocation_of w) g.active_allocations
        (λ x h miss. after-Cached now w p picks g.endpoints x h miss) v.cached;
}
  where
    w : ℕ
    w = e.workspace_id

    p : Endpoint → Bool
    p = endpoint_of w

    picks : Picks w p
    picks = record { only = λ x h. h; live = λ x h _. h }

    a : Allocation
    a = new_allocation w e.ssh_port e.jupyter_port e.vscode_port 0

    backs : Backs a e
    backs = record { active = live; ssh = refl; jupyter = refl; vscode = refl }

    apart : All (λ y. endpoint_of w y ≡ false → Separate e y) g.endpoints
    apart =
        Pairwise-find_first Separate (endpoint_of w) g.endpoints e Separate-sym v.durable.separate
          found

end_each-IsConsistent :
    (clock : Endpoint → ℕ) (es : List Endpoint) (g : Gateway)
    → Distinct (λ (e : Endpoint). e.workspace_id) es
    → All (Live g.endpoints) es
    → IsConsistent g
    → IsConsistent (end_each clock es g)
unfolding end_each end_stale
end_each-IsConsistent clock [] g d live v = v
end_each-IsConsistent clock (e ∷ es) g d live v =
    end_each-IsConsistent clock es (end_stale (clock e) e g) d.1 still
      (end_stale-IsConsistent (clock e) e g live.0 v)
  where
    picks : Picks e.workspace_id (endpoint_of e.workspace_id)
    picks = record { only = λ x h. h; live = λ x h _. h }

    still : All (Live (end_stale (clock e) e g).endpoints) es
    still =
        All-map _ _ es
          (λ f both.
            let found = both.1.1 in
            let other = both.0 in
            (
              both.1.0,
              after-found (clock e) e.workspace_id (endpoint_of e.workspace_id) picks g.endpoints
                    f.workspace_id (ground arith)
                  ∙ found,
            ))
          (All-both _ _ es d.0 live.1)

-- After a crash, whatever the process lost: from a fresh process and a table whose workspaces are
-- distinct and whose active leases have distinct ports, the boot leaves the table, the Map and the
-- Set consistent.
pub reconcile_leases-IsConsistent :
    (ip_of : ℕ → ℕ) (gone : ℕ → Bool) (clock : Endpoint → ℕ) (g : Gateway)
    → IsFresh g
    → IsDurable g.endpoints
    → IsConsistent (reconcile_leases ip_of gone clock g)
unfolding reconcile_leases
reconcile_leases-IsConsistent ip_of gone clock g fresh v =
    let (loaded, _) = loaded-IsConsistent ip_of g fresh v in
    let es = (load_each ip_of (find_many is_active g.endpoints) g).endpoints in
    end_each-IsConsistent clock (find_many (is_stale gone) es) _
      (Distinct-find_many _ (is_stale gone) es loaded.durable.rows)
      (Live-active es loaded.durable.rows (is_stale gone) (λ e h. ground arith)) loaded
