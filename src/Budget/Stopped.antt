-- ===== src/Budget/Stopped.antt =====
-- What worker/src/jobs/budget-monitor.ts leaves of a fleet that it stops.
use final_aldaro.Common.{
  ℕ, String, ◌*◌, ◌≤◌, ◌<◌, ◌≡◌, refl, ◌∙◌, subst, ◌⊎◌, inl, inr, Bool, true, false, some, List, [],
  ◌∷◌, ◌==◌, ◌&&◌, ==_refl, any, arith, All, All-map, All-update_many, find_first, find_many,
  upsert, find_first-upsert_other, Bool-cases,
}
use final_aldaro.Cleanup.Rows.{Workspace, Platform, CleanupJob, workspace_with_id, job_of}
use final_aldaro.Cleanup.Rows.JobStatus.{pending}
use final_aldaro.Cleanup.Batch.{enqueue_cleanup, reopen_job, new_job}
use final_aldaro.Budget.Rows.{Account, BudgetWorld, Tick}
use final_aldaro.Budget.Monitor.{
  is_stoppable, stop_row, stop_workspace, stop_each, fleet, stop_fleet, verdict, terminate,
  owned_by_user, user_spend, stop_user, check_user_budget,
}
use final_aldaro.Budget.Threshold.{verdict-terminate}

-- The cleanup of a workspace is due at the time `now`.
abbrev pub IsQueued : ℕ → ℕ → List CleanupJob → Type 0
IsQueued now workspace jobs =
    (j : CleanupJob) × (find_first (job_of workspace) jobs ≡ some j)
    × (j.status ≡ pending)
    × (j.next_attempt_at ≡ some now)

abbrev pub in_fleet : (Workspace → Bool) → Workspace → Bool
in_fleet owned x = owned x && is_stoppable x.status

-- A row is out of the fleet, or among those that are still to be stopped.
abbrev Waits : (Workspace → Bool) → List Workspace → Workspace → Type 0
Waits owned wss x = (any (λ ws. ws.id == x.id) wss ≡ true) ⊎ (in_fleet owned x ≡ false)

unlisted : (owned : Workspace → Bool) (x : Workspace) → Waits owned [] x → in_fleet owned x ≡ false
unlisted owned x (inl never) = cc
unlisted owned x (inr out) = out

module _ (t : Tick) (reason : String) where
  upsert-IsQueued :
      (workspace : ℕ) (new : CleanupJob) (jobs : List CleanupJob)
      → new.workspace_id ≡ workspace
      → new.status ≡ pending
      → new.next_attempt_at ≡ some t.now
      → IsQueued t.now workspace (upsert (job_of workspace) (reopen_job reason t.now) new jobs)
  upsert-IsQueued workspace new [] own status due = (new, ground arith, status, due)
  upsert-IsQueued workspace new (j ∷ jobs) own status due =
      let (k, at, k_status, k_due) = upsert-IsQueued workspace new jobs own status due in
      elim (Bool-cases (job_of workspace j)) [
        | inl hit ↦ rw hit (reopen_job reason t.now j, ground arith, refl, refl)
        | inr miss ↦ rw miss (k, ground arith, k_status, k_due)
      ]

  stop_workspace-IsQueued :
      (ws : Workspace) (p : Platform) → IsQueued t.now ws.id (stop_workspace t reason ws p).jobs
  unfolding enqueue_cleanup
  stop_workspace-IsQueued ws p =
      upsert-IsQueued ws.id (new_job (t.job_id_for ws.id) ws.id reason t.now) p.jobs refl refl refl

  -- Another workspace's cleanup stays queued.
  IsQueued-stop :
      (ws : Workspace) (other : ℕ) (p : Platform)
      → IsQueued t.now other p.jobs
      → IsQueued t.now other (stop_workspace t reason ws p).jobs
  unfolding enqueue_cleanup
  IsQueued-stop ws other p (j, at, status, due) = elim (Bool-cases (ws.id == other)) [
    | inl e ↦
        let same : ws.id ≡ other = ground arith in
        subst (λ k. IsQueued t.now k (stop_workspace t reason ws p).jobs) same
          (stop_workspace-IsQueued ws p)
    | inr e ↦
        let kept =
          find_first-upsert_other (job_of ws.id) (job_of other) (reopen_job reason t.now)
            (new_job (t.job_id_for ws.id) ws.id reason t.now) p.jobs e
            (λ x hit. (ground arith, ground arith)) in
        (j, kept ∙ at, status, due)
  ]

  stop_each-later :
      (wss : List Workspace) (p : Platform) (other : ℕ)
      → IsQueued t.now other p.jobs
      → IsQueued t.now other (stop_each t reason wss p).jobs
  unfolding stop_each
  stop_each-later [] p other h = h
  stop_each-later (ws ∷ wss) p other h =
      stop_each-later wss (stop_workspace t reason ws p) other (IsQueued-stop ws other p h)

  stop_each-IsQueued :
      (wss : List Workspace) (p : Platform)
      → All (λ ws. IsQueued t.now ws.id (stop_each t reason wss p).jobs) wss
  unfolding stop_each
  stop_each-IsQueued [] p = tt
  stop_each-IsQueued (ws ∷ wss) p = (
    stop_each-later wss (stop_workspace t reason ws p) ws.id (stop_workspace-IsQueued ws p),
    stop_each-IsQueued wss (stop_workspace t reason ws p),
  )

  Waits-next :
      (owned : Workspace → Bool) (ws : Workspace) (wss : List Workspace) (x : Workspace)
      → workspace_with_id ws.id x ≡ false
      → Waits owned (ws ∷ wss) x
      → Waits owned wss x
  Waits-next owned ws wss x miss (inl listed) = inl (ground arith)
  Waits-next owned ws wss x miss (inr out) = inr out

  stop_row-out :
      (owned : Workspace → Bool) (x : Workspace) → in_fleet owned (stop_row t.now x) ≡ false
  stop_row-out owned x = ground arith

  stop_each-out :
      (owned : Workspace → Bool) (wss : List Workspace) (p : Platform)
      → All (Waits owned wss) p.workspaces
      → All (λ x. in_fleet owned x ≡ false) (stop_each t reason wss p).workspaces
  unfolding stop_each enqueue_cleanup
  stop_each-out owned [] p h =
      All-map (Waits owned []) (λ x. in_fleet owned x ≡ false) p.workspaces (unlisted owned) h
  stop_each-out owned (ws ∷ wss) p h = stop_each-out owned wss (stop_workspace t reason ws p) (
      All-update_many (Waits owned (ws ∷ wss)) (Waits owned wss) (workspace_with_id ws.id)
        (stop_row t.now) p.workspaces (λ x w hit. inr (stop_row-out owned x))
        (λ x w miss. Waits-next owned ws wss x miss w) h)

-- Every row of the table is in the fleet or out of it.
module _ (owned : Workspace → Bool) (x : Workspace) (xs : List Workspace) where
  covers_head : Waits owned (find_many (in_fleet owned) (x ∷ xs)) x
  covers_head = elim (Bool-cases (in_fleet owned x)) [
    | inl fits ↦ inl (rw fits (ground (arith, ==_refl x.id)))
    | inr out ↦ inr out
  ]

  covers_rest :
      (y : Workspace)
      → Waits owned (find_many (in_fleet owned) xs) y
      → Waits owned (find_many (in_fleet owned) (x ∷ xs)) y
  covers_rest y (inl listed) = elim (Bool-cases (in_fleet owned x)) [
    | inl fits ↦ inl (rw fits (ground (arith, listed)))
    | inr out ↦ inl (rw out listed)
  ]
  covers_rest y (inr apart) = inr apart

fleet_covers :
    (owned : Workspace → Bool) (xs : List Workspace)
    → All (Waits owned (find_many (in_fleet owned) xs)) xs
fleet_covers owned [] = tt
fleet_covers owned (x ∷ xs) = (
  covers_head owned x xs,
  All-map (Waits owned (find_many (in_fleet owned) xs))
      (Waits owned (find_many (in_fleet owned) (x ∷ xs))) xs (covers_rest owned x xs)
      (fleet_covers owned xs),
)

-- The fleet is stopped: nothing of it is left, and its cleanups are due.
abbrev pub IsStopped : ℕ → (Workspace → Bool) → List Workspace → Platform → Type 0
IsStopped now owned before p =
    All (λ x. in_fleet owned x ≡ false) p.workspaces × All (λ ws. IsQueued now ws.id p.jobs) before

stop_fleet-IsStopped :
    (t : Tick) (reason : String) (owned : Workspace → Bool) (p : Platform)
    → IsStopped t.now owned (fleet owned p) (stop_fleet t reason owned p)
unfolding stop_fleet
stop_fleet-IsStopped t reason owned p = (
  stop_each-out t reason owned (fleet owned p) p (fleet_covers owned p.workspaces),
  stop_each-IsQueued t reason (fleet owned p) p,
)

List-cases {ℓ} : {A : Type ℓ} (xs : List A) → (xs ≡ []) ⊎ ((x : A) × (ys : List A) × (xs ≡ x ∷ ys))
List-cases [] = inl refl
List-cases (x ∷ ys) = inr (x, ys, refl)

stop_user-IsStopped :
    (t : Tick) (user spend limit : ℕ) (w : BudgetWorld)
    → IsStopped t.now
        (owned_by_user user)
        (fleet (owned_by_user user) w.platform)
        (stop_user t user spend limit w).platform
unfolding stop_user
stop_user-IsStopped t user spend limit w =
    let owned = owned_by_user user in
    let stopped = stop_fleet-IsStopped t "budget_limit" owned w.platform in
    elim (List-cases (fleet owned w.platform)) [
      | inl empty ↦
          rw (empty, stop_user)
            (
              All-map (Waits owned []) (λ x. in_fleet owned x ≡ false) w.platform.workspaces
                  (unlisted owned)
                  (subst (λ wss. All (Waits owned wss) w.platform.workspaces) empty
                    (fleet_covers owned w.platform.workspaces)),
              tt,
            )
      | inr (ws, wss, full) ↦
          rw (full, stop_user)
            (subst
              (λ before.
                IsStopped t.now owned before (stop_fleet t "budget_limit" owned w.platform))
              full stopped)
    ]

-- Where a user's action is AUTO_TERMINATE, the limit is positive and the spend of the month is
-- 99.5% of it or more, the check leaves no workspace of the user that is running, creating,
-- waiting or assigning, and each that there was has a pending cleanup job that is due at once.
pub check_user_budget-IsStopped :
    (t : Tick) (a : Account) (limit : ℕ) (w : BudgetWorld)
    → 0 < limit
    → a.auto_terminate ≡ true
    → 199 * limit ≤ 200 * user_spend t a.id w.platform
    → IsStopped t.now
        (owned_by_user a.id)
        (fleet (owned_by_user a.id) w.platform)
        (check_user_budget t a limit w).platform
unfolding check_user_budget
check_user_budget-IsStopped t a limit w pos auto over =
    let spend = user_spend t a.id w.platform in
    let stops : verdict t.now a spend limit ≡ terminate =
      (verdict-terminate t.now a spend limit pos).1 (auto, over) in
    rw (stops, check_user_budget) (stop_user-IsStopped t a.id spend limit w)
