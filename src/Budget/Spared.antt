-- ===== src/Budget/Spared.antt =====
-- Whom worker/src/jobs/idle-termination.ts lets run.
use final_aldaro.Common.{
  ℕ, String, ◌-◌, ◌≤◌, ◌≡◌, ◌≢◌, refl, ◌∙◌, ap, subst, inl, inr, none, some, List, [], ◌∷◌, arith,
  All, All-map, All-find_many, Distinct, find_first, find_many, find_first-update_many_past,
  find_first-Distinct, Option-cases,
}
use final_aldaro.Cleanup.Rows.{Workspace, Platform, workspace_with_id}
use final_aldaro.Budget.Idle.{
  is_assigned, agent_reason, idle_reason, reason_to_stop, idle_row, enqueue_cleanup_job,
  stop_idle_each, idle_termination_tick,
}

abbrev Stands : Workspace → Platform → Type 0
Stands ws p = find_first (workspace_with_id ws.id) p.workspaces ≡ some ws

-- A busy workspace with an agent that is alive.
busy :
    (limit now beat pct : ℕ) (ws : Workspace)
    → ws.last_agent_heartbeat_at ≡ some beat
    → now - beat ≤ 300_000
    → ws.last_gpu_utilization_pct ≡ some pct
    → 5 ≤ pct
    → reason_to_stop limit now ws ≡ none
unfolding reason_to_stop agent_reason idle_reason
busy limit now beat pct ws alive recent used high = ground arith

module _ (ids : ℕ → ℕ) (limit now : ℕ) (ws : Workspace)
    (spared : reason_to_stop limit now ws ≡ none) where
  enqueue_cleanup_job-Stands :
      (reason : String) (other : ℕ) (p q : Platform)
      → other ≢ ws.id
      → enqueue_cleanup_job ids reason now other p ≡ some q
      → Stands ws p
      → Stands ws q
  unfolding enqueue_cleanup_job
  enqueue_cleanup_job-Stands reason other p q apart e at =
      let kept =
        find_first-update_many_past (workspace_with_id other) (workspace_with_id ws.id)
          (idle_row reason now) p.workspaces ws (λ x. refl) (ground arith) at in
      ground (arith, kept)

  stop_idle_each-Stands :
      (wss : List Workspace) (p : Platform)
      → All (λ x. x.id ≡ ws.id → x ≡ ws) wss
      → Stands ws p
      → Stands ws (stop_idle_each ids limit now wss p)
  unfolding stop_idle_each
  stop_idle_each-Stands [] p known at = at
  stop_idle_each-Stands (x ∷ wss) p known at = elim (Option-cases (reason_to_stop limit now x)) [
    | inl free ↦ rw (free, stop_idle_each) (stop_idle_each-Stands wss p known.1 at)
    | inr (reason, guilty) ↦
        let apart : x.id ≢ ws.id = λ same.
          (let equal = known.0 same in
            let none_here : reason_to_stop limit now x ≡ none =
              ap (reason_to_stop limit now) equal ∙ spared in
            absurd (ground arith)) in
        elim (Option-cases (enqueue_cleanup_job ids reason now x.id p)) [
          | inl gone ↦ rw (guilty, gone, stop_idle_each) at
          | inr (q, e) ↦
              rw (guilty, e, stop_idle_each)
                (stop_idle_each-Stands wss q known.1
                  (enqueue_cleanup_job-Stands reason x.id p q apart e at))
        ]
  ]

-- On a table of workspaces with distinct ids, a workspace whose agent reported within five minutes
-- and whose GPU is used to 5% or more is left as it is by the tick.
pub idle_termination_tick_spares :
    (ids : ℕ → ℕ) (limit now beat pct : ℕ) (ws : Workspace) (p : Platform)
    → Distinct (λ (x : Workspace). x.id) p.workspaces
    → find_first (workspace_with_id ws.id) p.workspaces ≡ some ws
    → ws.last_agent_heartbeat_at ≡ some beat
    → now - beat ≤ 300_000
    → ws.last_gpu_utilization_pct ≡ some pct
    → 5 ≤ pct
    → find_first (workspace_with_id ws.id) (idle_termination_tick ids limit now p).workspaces
      ≡ some ws
unfolding idle_termination_tick
idle_termination_tick_spares ids limit now beat pct ws p d at alive recent used high =
    let rows : All (λ x. x.id ≡ ws.id → x ≡ ws) p.workspaces =
      All-map (λ x. find_first (workspace_with_id x.id) p.workspaces ≡ some x)
        (λ x. x.id ≡ ws.id → x ≡ ws) p.workspaces (λ x own e. only p x own e at)
        (find_first-Distinct (λ x. x.id) p.workspaces d) in
    stop_idle_each-Stands ids limit now ws (busy limit now beat pct ws alive recent used high)
      (find_many (λ x. is_assigned x.status) p.workspaces) p
      (All-find_many (λ x. x.id ≡ ws.id → x ≡ ws) (λ x. is_assigned x.status) p.workspaces rows) at
  where
    only :
        (p : Platform) (x : Workspace)
        → find_first (workspace_with_id x.id) p.workspaces ≡ some x
        → x.id ≡ ws.id
        → find_first (workspace_with_id ws.id) p.workspaces ≡ some ws
        → x ≡ ws
    only p x own e at =
        let here : find_first (workspace_with_id ws.id) p.workspaces ≡ some x =
          subst (λ k. find_first (workspace_with_id k) p.workspaces ≡ some x) e own in
        ground arith
