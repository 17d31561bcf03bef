-- ===== src/Fleet/Exclusive.antt =====
-- Which workspace holds which GPU: the rows of GPUs and of allocations under the claims, roll-backs and releases
-- of worker/src/jobs/warm-pool.ts.
use final_aldaro.Common.{
  ℕ, ◌≡◌, ◌≢◌, refl, true, false, none, some, List, [], ◌∷◌, arith, All, All-map, All-both,
  All-append, All-update_many, All-delete_many, Distinct, Distinct-any, Distinct-append,
  Distinct-update_many, Distinct-delete_many, any, any-none, update_many,
}
use final_aldaro.Cleanup.Rows.{
  Platform, FleetGpu, GpuAllocation, is_free, allocated, gpu_with_id, gpu_of,
}
use final_aldaro.Cleanup.Attempt.{free_gpu}
use final_aldaro.Fleet.Claim.{
  claimed, claim_gpu, claim_rows, still_free, take_gpu, new_allocation, is_allocated, roll_back_gpu,
}
use final_aldaro.Fleet.Rows.{Fleet, Hands}

-- The GPU that a live allocation names is allocated to its workspace.
abbrev pub Holds : GpuAllocation → FleetGpu → Type 0
Holds a g =
    g.id ≡ a.gpu_id → (g.status ≡ allocated) × (g.current_workspace_id ≡ some a.workspace_id)

abbrev pub Held : List FleetGpu → GpuAllocation → Type 0
Held gpus a = a.released_at ≡ none → All (Holds a) gpus

pub record IsExclusive (p : Platform) : Type 0 where
  pub gpus : Distinct (λ (g : FleetGpu). g.id) p.gpus
  pub once : Distinct (λ (a : GpuAllocation). a.gpu_id) p.allocations
  pub held : All (Held p.gpus) p.allocations

-- Of the allocations, only the workspace's own is of this GPU.
abbrev pub Mine : (workspace gpu : ℕ) → Platform → Type 0
Mine w gpu p = All (λ (a : GpuAllocation). a.gpu_id ≡ gpu → a.workspace_id ≡ w) p.allocations

-- The GPUs after the claim of one of them.
abbrev claimed_gpus : (workspace gpu : ℕ) → Platform → List FleetGpu
claimed_gpus w gpu p = update_many (still_free gpu) (take_gpu w) p.gpus

-- An allocation of another GPU holds it as before.
held_others :
    (w gpu : ℕ) (p : Platform)
    → All (Held p.gpus) p.allocations
    → All (λ (a : GpuAllocation). a.gpu_id ≢ gpu) p.allocations
    → All (Held (claimed_gpus w gpu p)) p.allocations
held_others w gpu p held apart =
    All-map _ _ p.allocations
      (λ (a : GpuAllocation) both live.
        All-update_many (Holds a) (Holds a) (still_free gpu) (take_gpu w) p.gpus
          (λ g h hit own. absurd (both.1 (ground arith))) (λ g h miss. h) (both.0 live))
      (All-both (Held p.gpus) _ p.allocations held apart)

-- The new allocation holds the claimed GPU, which was free.
held_new :
    (h : Hands) (w gpu : ℕ) (p : Platform)
    → Distinct (λ (g : FleetGpu). g.id) p.gpus
    → any (still_free gpu) p.gpus ≡ true
    → Held (claimed_gpus w gpu p) (new_allocation h.allocation_id w gpu)
held_new h w gpu p distinct there live =
    All-update_many (λ g. g.id ≡ gpu → is_free g.status ≡ true)
      (Holds (new_allocation h.allocation_id w gpu)) (still_free gpu) (take_gpu w) p.gpus
      (λ g was hit own. (refl, refl))
      (λ g was miss own. let free_one = was own in absurd (ground arith))
      (Distinct-any gpu (λ g. g.id) (λ g. is_free g.status) p.gpus distinct there)

pub claim_gpu-IsExclusive :
    (h : Hands) (w gpu : ℕ) (fl fl' : Fleet)
    → IsExclusive fl.platform
    → claim_gpu h w gpu fl ≡ claimed fl'
    → IsExclusive fl'.platform × Mine w gpu fl'.platform
unfolding claim_gpu
claim_gpu-IsExclusive h w gpu fl fl' v won =
    let p = fl.platform in
    let there : any (still_free gpu) p.gpus ≡ true = ground arith in
    let fresh : any (is_allocated w gpu) p.allocations ≡ false = ground arith in
    let same : fl'.platform ≡ claim_rows h w gpu p = ground arith in
    let new = new_allocation h.allocation_id w gpu in
    let apart : All (λ (a : GpuAllocation). a.gpu_id ≢ gpu) p.allocations =
      All-map _ _ p.allocations (λ (a : GpuAllocation) miss own. absurd (ground arith))
        (any-none (is_allocated w gpu) p.allocations fresh) in
    rw same (
      record {
        gpus =
            Distinct-update_many (λ g. g.id) (still_free gpu) (take_gpu w) p.gpus (λ g. refl)
              v.gpus;
        once = Distinct-append (λ a. a.gpu_id) p.allocations new apart v.once;
        held =
            All-append _ p.allocations (new ∷ []) (held_others w gpu p v.held apart)
              (held_new h w gpu p v.gpus there, tt);
      },
      All-append _ p.allocations (new ∷ [])
          (All-map _ _ p.allocations (λ (a : GpuAllocation) ne own. absurd (ne own)) apart)
          ((λ own. refl), tt),
    )

pub roll_back_gpu-IsExclusive :
    (w gpu : ℕ) (fl : Fleet)
    → IsExclusive fl.platform
    → Mine w gpu fl.platform
    → IsExclusive (roll_back_gpu w gpu fl).platform
unfolding roll_back_gpu
roll_back_gpu-IsExclusive w gpu fl v mine =
    let p = fl.platform in
    record {
      gpus = Distinct-update_many (λ g. g.id) (gpu_with_id gpu) free_gpu p.gpus (λ g. refl) v.gpus;
      once = Distinct-delete_many (λ a. a.gpu_id) (gpu_of w) p.allocations v.once;
      held =
          All-delete_many
            (λ (a : GpuAllocation). Held p.gpus a × (a.gpu_id ≡ gpu → a.workspace_id ≡ w))
            (Held (update_many (gpu_with_id gpu) free_gpu p.gpus)) (gpu_of w) p.allocations
            (λ (a : GpuAllocation) both other live.
              All-update_many (Holds a) (Holds a) (gpu_with_id gpu) free_gpu p.gpus
                (λ g h hit own.
                  let at : a.gpu_id ≡ gpu = ground arith in
                  let whose = both.1 at in absurd (ground arith))
                (λ g h miss. h) (both.0 live))
            (All-both (Held p.gpus) _ p.allocations v.held mine);
    }
