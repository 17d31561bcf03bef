-- ===== src/Fleet/Stuck.antt =====
-- A GPU whose last allocation was released: `spawnWarmWorkspace` of worker/src/jobs/warm-pool.ts against the unique
-- index of packages/db/prisma/schema.prisma on the GPU of an allocation.
use final_aldaro.Common.{
  ℕ, ◌≡◌, refl, sym, ap, ◌∙◌, inl, inr, Bool, true, Option, none, some, List, [], ◌∷◌, arith, any,
  find_first, find_first-fits, Option-cases,
}
use final_aldaro.Billing.Catalog.{WarmPoolConfig}
use final_aldaro.Cleanup.Rows.{FleetGpu, GpuAllocation}
use final_aldaro.Fleet.Claim.{
  find_gpu, find_template, get_next_vmid, claim_gpu, refused, still_free, suits, allocated_to,
  is_allocated,
}
use final_aldaro.Fleet.Releasing.{found_there}
use final_aldaro.Fleet.Rows.{Fleet, Hands, VmTemplate, FleetNode, node_with_id}
use final_aldaro.Fleet.Spawn.{
  spawn_warm_workspace, spawn_with, spawn_on, after_claim_warm, add_workspace, warm_workspace,
}

-- No other request writes before the claim.
abbrev pub IsAlone : Hands → Type 0
IsAlone h = (fl : Fleet) → h.before_claim fl ≡ fl

-- The GPU that is found is a row of the table that is free.
pub find_gpu_free :
    (h : Hands) (gpu : ℕ) (fl : Fleet) (g : FleetGpu) (node : ℕ)
    → find_gpu h gpu fl ≡ some (g, node)
    → any (still_free g.id) fl.platform.gpus ≡ true
unfolding find_gpu
find_gpu_free h gpu fl g node found =
    elim (Option-cases (find_first (suits h gpu fl.nodes) fl.platform.gpus)) [
      | inl missing ↦ absurd (none_found (rw (missing, find_gpu) at found))
      | inr (g', there) ↦
          let whole : (elim (find_first (node_with_id g'.node_id) fl.nodes)
                as (λ _. Option (FleetGpu × ℕ)) [ none ↦ none | some n ↦ some (g', n.name) ])
              ≡ some (g, node) =
            rw (there, find_gpu) at found in
          let same : g' ≡ g = by_node (find_first (node_with_id g'.node_id) fl.nodes) g' whole in
          let fits : suits h gpu fl.nodes g' ≡ true =
            find_first-fits (suits h gpu fl.nodes) fl.platform.gpus g' there in
          let here : still_free g'.id g' ≡ true = ground arith in
          ap (λ (x : FleetGpu). any (still_free x.id) fl.platform.gpus) (sym same)
          ∙ found_there (suits h gpu fl.nodes) (still_free g'.id) fl.platform.gpus g' there here
    ]
  where
    none_found : ◌≡◌ {A = Option (FleetGpu × ℕ)} none (some (g, node)) → ⊥
    none_found e = cc

    by_node :
        (o : Option FleetNode) (g' : FleetGpu)
        → (elim o as (λ _. Option (FleetGpu × ℕ)) [ none ↦ none | some n ↦ some (g', n.name) ])
          ≡ some (g, node)
        → g' ≡ g
    by_node none g' e = cc
    by_node (some n) g' e = ground arith

claim_gpu_refused :
    (h : Hands) (w gpu : ℕ) (fl : Fleet)
    → any (still_free gpu) fl.platform.gpus ≡ true
    → any (allocated_to gpu) fl.platform.allocations ≡ true
    → claim_gpu h w gpu fl ≡ refused
unfolding claim_gpu
claim_gpu_refused h w gpu fl here old = ground (
  arith,
  any_wider (allocated_to gpu) (is_allocated w gpu) fl.platform.allocations (λ a own. ground arith)
      old,
)
  where
    any_wider :
        (p q : GpuAllocation → Bool) (xs : List GpuAllocation)
        → ((x : GpuAllocation) → p x ≡ true → q x ≡ true)
        → any p xs ≡ true
        → any q xs ≡ true
    any_wider p q [] h e = e
    any_wider p q (x ∷ xs) h e = ground (arith, h x, any_wider p q xs h)

-- Where a spawn finds a free GPU and a template, nothing else is written before its claim, and
-- some allocation, released or not, names that GPU, the spawn leaves one more workspace in status
-- CREATING and changes nothing else: the GPU stays free.
pub spawn_warm_workspace_stuck :
    (h : Hands) (cfg : WarmPoolConfig) (fl : Fleet) (g : FleetGpu) (node : ℕ) (t : VmTemplate)
    → IsAlone h
    → find_gpu h cfg.gpu_type fl ≡ some (g, node)
    → find_template node cfg.gpu_type fl ≡ some t
    → any (allocated_to g.id) fl.platform.allocations ≡ true
    → spawn_warm_workspace h cfg fl
      ≡ add_workspace (warm_workspace h cfg node (get_next_vmid node fl)) fl
unfolding spawn_warm_workspace spawn_with spawn_on after_claim_warm
spawn_warm_workspace_stuck h cfg fl g node t alone found template old =
    let added = add_workspace (warm_workspace h cfg node (get_next_vmid node fl)) fl in
    let here = find_gpu_free h cfg.gpu_type fl g node found in
    rw (found, spawn_warm_workspace)
      (rw (template, spawn_with)
        (rw (alone added)
          (rw (claim_gpu_refused h h.workspace_id g.id added here old, after_claim_warm) refl)))
