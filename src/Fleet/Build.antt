-- ===== src/Fleet/Build.antt =====
-- Building a machine for a workspace that has a GPU: what `spawnWarmWorkspace` and `provisionColdWorkspace` of
-- worker/src/jobs/warm-pool.ts do after the claim. The writes of the `catch` clause do not fail, and the
-- machine that it tries to delete has no row.
use final_aldaro.Common.{ℕ, Bool, true, false, Option, none, some, List, [], ◌∷◌, ◌++◌, or_else}
use final_aldaro.Billing.Rows.{Failure, ErrorCode, named}
use final_aldaro.Cleanup.Rows.{Workspace, waiting_for_agent, failed}
use final_aldaro.Fleet.Rows.{
  Fleet, Hands, Point, clone_vm, wait_for_task, release, mark_cloned, attach_gpu, mark_vlan,
  mark_attached, attach_volume, cloud_init, start_vm, mark_booted,
}
use final_aldaro.Fleet.Claim.{change_workspace, roll_back_gpu}
use final_aldaro.Fleet.Clones.{acquire_clone_semaphore, release_clone_semaphore}

-- A statement of the `try` block, and what it changes where it does not throw.
pub record Step : Type 0 where
  pub point : Point
  pub change : Fleet → Fleet

abbrev pub step : Point → (Fleet → Fleet) → Step
step point change = record { point = point; change = change }

abbrev pub call : Point → Step
call point = step point (λ fl. fl)

unfoldable pub run_steps : Hands → List Step → Fleet → Fleet × Option Failure
run_steps h [] fl = (fl, none)
run_steps h (s ∷ ss) fl =
    let rest = run_steps h ss (s.change fl) in
    elim (h.fault s.point) [ none ↦ rest | some f ↦ (fl, some f) ]

abbrev pub cloned_row : ℕ → Workspace → Workspace
cloned_row now ws = record ws { clone_completed_at = some now; updated_at = now }

abbrev pub vlan_row : (vlan now : ℕ) → Workspace → Workspace
vlan_row vlan now ws = record ws { vlan_tag = some vlan; updated_at = now }

abbrev pub attached_row : ℕ → Workspace → Workspace
attached_row now ws = record ws { gpu_attached_at = some now; updated_at = now }

abbrev pub attached_vlan_row : (vlan now : ℕ) → Workspace → Workspace
attached_vlan_row vlan now ws = record ws {
  gpu_attached_at = some now;
  vlan_tag = some vlan;
  updated_at = now;
}

abbrev pub booted_row : ℕ → Workspace → Workspace
booted_row now ws = record ws {
  boot_completed_at = some now;
  status = waiting_for_agent;
  updated_at = now;
}

-- What both blocks begin with: the slot is free again once the clone is complete.
abbrev pub clone_steps : Hands → ℕ → List Step
clone_steps h w =
    call clone_vm
    ∷ call wait_for_task
    ∷ step release (release_clone_semaphore (h.time_at release) w)
    ∷ step mark_cloned (change_workspace w (cloned_row (h.time_at mark_cloned)))
    ∷ call attach_gpu
    ∷ []

abbrev pub boot_steps : Hands → ℕ → List Step
boot_steps h w =
    call attach_volume
    ∷ call cloud_init
    ∷ call start_vm
    ∷ step mark_booted (change_workspace w (booted_row (h.time_at mark_booted)))
    ∷ []

abbrev pub warm_pool_vlan : ℕ
warm_pool_vlan = 100

abbrev pub warm_steps : Hands → ℕ → List Step
warm_steps h w =
    clone_steps h w
    ++ (step mark_vlan (change_workspace w (vlan_row warm_pool_vlan (h.time_at mark_vlan)))
        ∷ step mark_attached (change_workspace w (attached_row (h.time_at mark_attached)))
        ∷ boot_steps h w)

abbrev pub cold_steps : Hands → ℕ → List Step
cold_steps h w =
    clone_steps h w
    ++ (step mark_attached (change_workspace w (attached_vlan_row h.vlan (h.time_at mark_attached)))
        ∷ boot_steps h w)

-- `error.code || 'PROVISION_ERROR'`
abbrev pub failed_row : (code : ErrorCode) → ℕ → Workspace → Workspace
failed_row code now ws = record ws {
  status = failed;
  failed_at = some now;
  last_error_code = some code;
  updated_at = now;
}

abbrev pub provision_error : Failure → ErrorCode
provision_error f = or_else f.code (named "PROVISION_ERROR")

unfoldable pub give_up : Hands → (workspace gpu : ℕ) → Failure → Fleet → Fleet
give_up h w gpu f fl = roll_back_gpu w gpu (
    change_workspace w (failed_row (provision_error f) h.time_failed)
      (release_clone_semaphore h.time_failed w fl))

unfoldable pub or_give_up : Hands → (workspace gpu : ℕ) → Fleet × Option Failure → Fleet
unfolding give_up
or_give_up h w gpu (fl, none) = fl
or_give_up h w gpu (fl, some f) = give_up h w gpu f fl

-- With a slot the machine is built; without one the GPU is given back and the workspace is deferred.
unfoldable pub build_or_defer :
    Hands → List Step → (Fleet → Fleet) → (workspace gpu : ℕ) → Fleet × Bool → Fleet
unfolding or_give_up
build_or_defer h steps defer w gpu (fl, true) = or_give_up h w gpu (run_steps h steps fl)
build_or_defer h steps defer w gpu (fl, false) = defer (roll_back_gpu w gpu fl)

unfoldable pub build :
    Hands → List Step → (Fleet → Fleet) → (workspace gpu node : ℕ) → Fleet → Fleet
unfolding build_or_defer
build h steps defer w gpu node fl =
    build_or_defer h steps defer w gpu (acquire_clone_semaphore h node w fl)
