-- ===== src/Fleet/Building.antt =====
-- The chain of statements that builds a machine (worker/src/jobs/warm-pool.ts), and the ways out of it, against
-- the rows of GPUs and of allocations.
use final_aldaro.Common.{ℕ, ◌≡◌, refl, inl, inr, List, All, Bool-cases}
use final_aldaro.Billing.Rows.{Failure}
use final_aldaro.Cleanup.Rows.{Workspace}
use final_aldaro.Fleet.Build.{Step, give_up, build, warm_steps, cold_steps}
use final_aldaro.Fleet.Claim.{change_workspace, roll_back_gpu}
use final_aldaro.Fleet.Clones.{acquire_clone_semaphore, release_clone_semaphore, may_clone}
use final_aldaro.Fleet.Exclusive.{IsExclusive, Mine, roll_back_gpu-IsExclusive}
use final_aldaro.Fleet.Rows.{Fleet, Hands}
use final_aldaro.Fleet.Steps.{build_or_defer-kept}
use final_aldaro.Fleet.Turns.{Keeps}

abbrev pub Owned : Fleet → Type 0
Owned fl = IsExclusive fl.platform

-- While a machine is built, its workspace alone has the GPU.
pub record IsBuilding (w gpu : ℕ) (fl : Fleet) : Type 0 where
  pub exclusive : IsExclusive fl.platform
  pub mine : Mine w gpu fl.platform

-- A change that leaves the two tables alone.
pub record Leaves (fl fl' : Fleet) : Type 0 where
  pub gpus : fl'.platform.gpus ≡ fl.platform.gpus
  pub allocations : fl'.platform.allocations ≡ fl.platform.allocations

pub Leaves-Owned : (fl fl' : Fleet) → Leaves fl fl' → Owned fl → Owned fl'
Leaves-Owned fl fl' same v = record {
  gpus = rw same.gpus v.gpus;
  once = rw same.allocations v.once;
  held = rw same.gpus (rw same.allocations v.held);
}

Leaves-IsBuilding :
    (w gpu : ℕ) (fl fl' : Fleet) → Leaves fl fl' → IsBuilding w gpu fl → IsBuilding w gpu fl'
Leaves-IsBuilding w gpu fl fl' same b = record {
  exclusive = Leaves-Owned fl fl' same b.exclusive;
  mine = rw same.allocations b.mine;
}

step_kept :
    (w gpu : ℕ) (change : Fleet → Fleet)
    → ((fl : Fleet) → Leaves fl (change fl))
    → (fl : Fleet) → IsBuilding w gpu fl
    → IsBuilding w gpu (change fl)
step_kept w gpu change leaves fl b = Leaves-IsBuilding w gpu fl (change fl) (leaves fl) b

released : (now w : ℕ) (fl : Fleet) → Leaves fl (release_clone_semaphore now w fl)
unfolding release_clone_semaphore
released now w fl = record { gpus = refl; allocations = refl }

acquired : (h : Hands) (node w : ℕ) (fl : Fleet) → Leaves fl (acquire_clone_semaphore h node w fl).0
unfolding acquire_clone_semaphore
acquired h node w fl = elim (Bool-cases (may_clone h node w fl.semaphores)) [
  | inl room ↦ rw (room, acquire_clone_semaphore) (record { gpus = refl; allocations = refl })
  | inr full ↦ rw (full, acquire_clone_semaphore) (record { gpus = refl; allocations = refl })
]

module _ (h : Hands) (w gpu : ℕ) where
  kept_row : (fl : Fleet) → IsBuilding w gpu fl → IsBuilding w gpu fl
  kept_row fl b = b

  changed_row :
      (f : Workspace → Workspace) (fl : Fleet)
      → IsBuilding w gpu fl
      → IsBuilding w gpu (change_workspace w f fl)
  changed_row f =
      step_kept w gpu (change_workspace w f) (λ fl. record { gpus = refl; allocations = refl })

  released_row :
      (now : ℕ) (fl : Fleet)
      → IsBuilding w gpu fl
      → IsBuilding w gpu (release_clone_semaphore now w fl)
  released_row now = step_kept w gpu (release_clone_semaphore now w) (released now w)

  pub warm_steps_kept :
      All
        (λ s. (fl : Fleet) → IsBuilding w gpu fl → IsBuilding w gpu (s.change fl))
        (warm_steps h w)
  warm_steps_kept = (
    kept_row,
    (
      kept_row,
      (
        released_row _,
        (
          changed_row _,
          (
            kept_row,
            (
              changed_row _,
              (changed_row _, (kept_row, (kept_row, (kept_row, (changed_row _, tt))))),
            ),
          ),
        ),
      ),
    ),
  )

  pub cold_steps_kept :
      All
        (λ s. (fl : Fleet) → IsBuilding w gpu fl → IsBuilding w gpu (s.change fl))
        (cold_steps h w)
  cold_steps_kept = (
    kept_row,
    (
      kept_row,
      (
        released_row _,
        (
          changed_row _,
          (kept_row, (changed_row _, (kept_row, (kept_row, (kept_row, (changed_row _, tt)))))),
        ),
      ),
    ),
  )

  given_up : (f : Failure) (fl : Fleet) → IsBuilding w gpu fl → Owned (give_up h w gpu f fl)
  unfolding give_up
  given_up f fl b =
      let c =
        changed_row _ (release_clone_semaphore h.time_failed w fl)
          (released_row h.time_failed fl b) in
      roll_back_gpu-IsExclusive w gpu _ c.exclusive c.mine

  pub built :
      (steps : List Step) (defer : Fleet → Fleet) (node : ℕ) (fl : Fleet)
      → All (λ s. (fl : Fleet) → IsBuilding w gpu fl → IsBuilding w gpu (s.change fl)) steps
      → Keeps Owned defer
      → IsBuilding w gpu fl
      → Owned (build h steps defer w gpu node fl)
  unfolding build
  built steps defer node fl kept deferred b =
      build_or_defer-kept (IsBuilding w gpu) Owned h steps defer w gpu kept (λ fl b. b.exclusive)
        given_up
        (λ fl b.
          deferred (roll_back_gpu w gpu fl) (roll_back_gpu-IsExclusive w gpu fl b.exclusive b.mine))
        (acquire_clone_semaphore h node w fl)
        (Leaves-IsBuilding w gpu fl (acquire_clone_semaphore h node w fl).0 (acquired h node w fl)
          b)
