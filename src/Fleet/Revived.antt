-- ===== src/Fleet/Revived.antt =====
-- A workspace that was stopped while its machine was about to be built: `provisionColdWorkspace` of
-- worker/src/jobs/warm-pool.ts does not look at the status again.
use final_aldaro.Common.{
  ℕ, ◌≡◌, refl, ap, ◌∙◌, true, false, Option, none, some, List, [], ◌∷◌, ◌++◌, ◌==◌, arith, All,
  any, find_first, find_first-update_many,
}
use final_aldaro.Billing.Rows.{Failure}
use final_aldaro.Cleanup.Rows.{Workspace, FleetGpu, waiting_for_agent, workspace_with_id}
use final_aldaro.Fleet.Build.{
  Step, step, call, clone_steps, cloned_row, attached_vlan_row, run_steps, or_give_up,
  build_or_defer, build, cold_steps, booted_row,
}
use final_aldaro.Fleet.Claim.{
  claimed, claim_gpu, claim_rows, find_gpu, is_allocated, template_on, get_next_vmid,
  change_workspace, on_platform, still_free,
}
use final_aldaro.Fleet.Clones.{acquire_clone_semaphore, release_clone_semaphore, may_clone}
use final_aldaro.Fleet.Rows.{
  Fleet, Hands, Point, VmTemplate, release, mark_cloned, mark_attached, attach_volume, cloud_init,
  start_vm, mark_booted,
}
use final_aldaro.Fleet.Spawn.{
  after_claim_cold, provision_on, provision_with, place_workspace, provision_cold_workspace,
  placed_row, started_row, unplace,
}
use final_aldaro.Fleet.Stuck.{IsAlone, find_gpu_free}

-- The workspace has a row.
record HasRow (w : ℕ) (fl : Fleet) : Type 0 where
  row : Workspace
  found : find_first (workspace_with_id w) fl.platform.workspaces ≡ some row

-- Its row says that the machine has been started.
pub record IsStarted (w : ℕ) (fl : Fleet) : Type 0 where
  pub row : Workspace
  pub found : find_first (workspace_with_id w) fl.platform.workspaces ≡ some row
  pub status : row.status ≡ waiting_for_agent

changed_row :
    (w : ℕ) (f : Workspace → Workspace)
    → ((ws : Workspace) → (f ws).id ≡ ws.id)
    → (fl : Fleet) → HasRow w fl
    → HasRow w (change_workspace w f fl)
changed_row w f same fl h = record {
  row = f h.row;
  found =
      find_first-update_many (workspace_with_id w) f fl.platform.workspaces h.row
        (λ ws. ap (λ (i : ℕ). i == w) (same ws)) h.found;
}

-- The chain of a build, where no statement throws: what each step keeps, and what the last one makes.
run_steps-IsStarted :
    (h : Hands) (w : ℕ) (steps : List Step) (last : Step) (fl : Fleet)
    → ((p : Point) → h.fault p ≡ none)
    → All (λ s. (fl : Fleet) → HasRow w fl → HasRow w (s.change fl)) steps
    → ((fl : Fleet) → HasRow w fl → IsStarted w (last.change fl))
    → HasRow w fl
    → ((run_steps h (steps ++ last ∷ []) fl).1 ≡ none)
      × IsStarted w (run_steps h (steps ++ last ∷ []) fl).0
unfolding run_steps
run_steps-IsStarted h w [] last fl clear kept started there =
    rw (clear last.point) (refl, started fl there)
run_steps-IsStarted h w (s ∷ ss) last fl clear kept started there =
    rw (clear s.point)
      (run_steps-IsStarted h w ss last (s.change fl) clear kept.1 started (kept.0 fl there))

or_give_up-IsStarted :
    (h : Hands) (w gpu : ℕ) (x : Fleet × Option Failure)
    → (x.1 ≡ none) × IsStarted w x.0
    → IsStarted w (or_give_up h w gpu x)
unfolding or_give_up
or_give_up-IsStarted h w gpu (fl, none) (fine, started) = started
or_give_up-IsStarted h w gpu (fl, some f) (fine, started) = absurd (ground arith)

-- The steps before the last one.
abbrev early_steps : Hands → ℕ → List Step
early_steps h w =
    clone_steps h w
    ++ (step mark_attached (change_workspace w (attached_vlan_row h.vlan (h.time_at mark_attached)))
        ∷ call attach_volume
        ∷ call cloud_init
        ∷ call start_vm
        ∷ [])

booted :
    (h : Hands) (w : ℕ) (fl : Fleet)
    → HasRow w fl
    → IsStarted w (change_workspace w (booted_row (h.time_at mark_booted)) fl)
unfolding changed_row
booted h w fl there = record {
  row = booted_row (h.time_at mark_booted) there.row;
  found = (changed_row w (booted_row (h.time_at mark_booted)) (λ ws. refl) fl there).found;
  status = refl;
}

released_row : (now w : ℕ) (fl : Fleet) → HasRow w fl → HasRow w (release_clone_semaphore now w fl)
unfolding release_clone_semaphore
released_row now w fl there = record { row = there.row; found = there.found }

build-IsStarted :
    (h : Hands) (w gpu node : ℕ) (fl : Fleet)
    → ((p : Point) → h.fault p ≡ none)
    → may_clone h node w fl.semaphores ≡ true
    → HasRow w fl
    → IsStarted w (build h (cold_steps h w) (unplace h w) w gpu node fl)
unfolding build build_or_defer acquire_clone_semaphore
build-IsStarted h w gpu node fl clear room there =
    let same = λ (fl : Fleet) (there : HasRow w fl). there in
    let kept : All (λ s. (fl : Fleet) → HasRow w fl → HasRow w (s.change fl)) (early_steps h w) = (
      same,
      (
        same,
        (
          released_row (h.time_at release) w,
          (
            changed_row w (cloned_row (h.time_at mark_cloned)) (λ ws. refl),
            (
              same,
              (
                changed_row w (attached_vlan_row h.vlan (h.time_at mark_attached)) (λ ws. refl),
                (same, (same, (same, tt))),
              ),
            ),
          ),
        ),
      ),
    ) in
    let slot = (acquire_clone_semaphore h node w fl).0 in
    rw room (
      or_give_up-IsStarted h w gpu _ (
        run_steps-IsStarted h w (early_steps h w)
          (step mark_booted (change_workspace w (booted_row (h.time_at mark_booted)))) _ clear kept
          (booted h w) (record { row = there.row; found = there.found })))

claim_gpu_won :
    (h : Hands) (w gpu : ℕ) (fl : Fleet)
    → h.claim_fault ≡ false
    → any (still_free gpu) fl.platform.gpus ≡ true
    → any (is_allocated w gpu) fl.platform.allocations ≡ false
    → claim_gpu h w gpu fl ≡ claimed (on_platform (claim_rows h w gpu) fl)
unfolding claim_gpu
claim_gpu_won h w gpu fl fine here unallocated = rw fine (rw here (rw unallocated refl))

find_gpu_row :
    (h : Hands) (gpu w : ℕ) (f : Workspace → Workspace) (fl : Fleet)
    → find_gpu h gpu (change_workspace w f fl) ≡ find_gpu h gpu fl
unfolding find_gpu
find_gpu_row h gpu w f fl = refl

-- Where a cold workspace was read for provisioning, its row is still there whatever its status is
-- by then, a GPU and a template are found, the claim and the semaphore go through and no statement
-- throws, the workspace's row ends in status WAITING_FOR_AGENT.
pub provision_cold_workspace-IsStarted :
    (h : Hands) (ws r : Workspace) (fl : Fleet) (g : FleetGpu) (node : ℕ) (t : VmTemplate)
    → IsAlone h
    → find_first (workspace_with_id ws.id) fl.platform.workspaces ≡ some r
    → find_gpu h ws.gpu_type fl ≡ some (g, node)
    → find_first (template_on node) fl.templates ≡ some t
    → h.claim_fault ≡ false
    → any (is_allocated ws.id g.id) fl.platform.allocations ≡ false
    → may_clone h node ws.id fl.semaphores ≡ true
    → ((p : Point) → h.fault p ≡ none)
    → IsStarted ws.id (provision_cold_workspace h ws fl)
unfolding provision_cold_workspace place_workspace provision_with provision_on after_claim_cold
provision_cold_workspace-IsStarted h ws r fl g node t alone there found template fine unallocated
      room clear =
    let started = change_workspace ws.id (started_row h.now) fl in
    let placed =
      change_workspace ws.id (placed_row node (get_next_vmid node started) h.now) started in
    let row : HasRow ws.id fl = record { row = r; found = there } in
    let begun = changed_row ws.id (started_row h.now) (λ x. refl) fl row in
    let put =
      changed_row ws.id (placed_row node (get_next_vmid node started) h.now) (λ x. refl) started
        begun in
    let here = find_gpu_free h ws.gpu_type fl g node found in
    rw (find_gpu_row h ws.gpu_type ws.id (started_row h.now) fl ∙ found, place_workspace)
      (rw (template, provision_with)
        (rw (alone placed) (
          rw (claim_gpu_won h ws.id g.id placed fine here unallocated, after_claim_cold)
            (build-IsStarted h ws.id g.id node (on_platform (claim_rows h ws.id g.id) placed) clear
              room (record { row = put.row; found = put.found })))))
