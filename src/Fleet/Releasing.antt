-- ===== src/Fleet/Releasing.antt =====
-- `terminateWorkspace` of worker/src/jobs/warm-pool.ts against the rows of GPUs and allocations.
use final_aldaro.Common.{
  ℕ, String, ◌≡◌, refl, ap, ◌∙◌, inl, inr, Bool, true, Option, none, some, List, [], ◌∷◌, ◌==◌,
  ◌&&◌, arith, All, All-both, All-update_many, Distinct-any, Distinct-update_many, Option-cases,
  any, find_first, update_many, Bool-cases,
}
use final_aldaro.Billing.Rows.{Ledger, Failure}
use final_aldaro.Billing.Close.{finalize_usage_sessions}
use final_aldaro.Cleanup.Rows.{
  Platform, GpuAllocation, gpu_with_id, gpu_of, allocation_with_id, workspace_with_id,
}
use final_aldaro.Cleanup.Attempt.{free_gpu, release_allocation}
use final_aldaro.Fleet.Exclusive.{Holds, Held, IsExclusive}
use final_aldaro.Fleet.Shrink.{
  Stop, release_gpu_of, release_ports, after_sessions, end_sessions, terminate_found,
  terminate_workspace, change_row, terminating_row,
}

pub found_there {ℓ} :
    {A : Type ℓ} (p q : A → Bool) (xs : List A) (x : A)
    → find_first p xs ≡ some x
    → q x ≡ true
    → any q xs ≡ true
found_there p q [] x found fits = cc
found_there p q (y ∷ xs) x found fits = elim (Bool-cases (p y)) [
  | inl hit ↦
      let same : y ≡ x = ground arith in let here : q y ≡ true = ap q same ∙ fits in rw here refl
  | inr miss ↦ ground (arith, found_there p q xs x)
]

-- The allocation that is found is released together with its GPU; every other one has another GPU.
pub release_gpu_of-IsExclusive :
    (now : ℕ) (test : GpuAllocation → Bool) (o : Option GpuAllocation) (p : Platform)
    → find_first test p.allocations ≡ o
    → IsExclusive p
    → IsExclusive (release_gpu_of now o p)
unfolding release_gpu_of
release_gpu_of-IsExclusive now test none p found v = v
release_gpu_of-IsExclusive now test (some a) p found v =
    let own : any (λ (x : GpuAllocation). x.gpu_id == a.gpu_id && x.id == a.id) p.allocations
        ≡ true =
      found_there test (λ (x : GpuAllocation). x.gpu_id == a.gpu_id && x.id == a.id) p.allocations a
        found (ground arith) in
    let only : All (λ (x : GpuAllocation). x.gpu_id ≡ a.gpu_id → (x.id == a.id) ≡ true)
        p.allocations =
      Distinct-any a.gpu_id (λ x. x.gpu_id) (λ x. x.id == a.id) p.allocations v.once own in
    record {
      gpus =
          Distinct-update_many (λ g. g.id) (gpu_with_id a.gpu_id) free_gpu p.gpus (λ g. refl)
            v.gpus;
      once =
          Distinct-update_many (λ x. x.gpu_id) (allocation_with_id a.id) (release_allocation now)
            p.allocations (λ x. refl) v.once;
      held =
          All-update_many
            (λ (x : GpuAllocation). Held p.gpus x × (x.gpu_id ≡ a.gpu_id → (x.id == a.id) ≡ true))
            (Held (update_many (gpu_with_id a.gpu_id) free_gpu p.gpus)) (allocation_with_id a.id)
            (release_allocation now) p.allocations
            (λ (x : GpuAllocation) both hit live. absurd (ground arith))
            (λ (x : GpuAllocation) both miss live.
              All-update_many (Holds x) (Holds x) (gpu_with_id a.gpu_id) free_gpu p.gpus
                (λ g h hit named.
                  let at : x.gpu_id ≡ a.gpu_id = ground arith in
                  let same = both.1 at in absurd (ground arith))
                (λ g h miss. h) (both.0 live))
            (All-both (Held p.gpus) _ p.allocations v.held only);
    }

after_sessions-IsExclusive :
    (now w : ℕ) (p : Platform) (x : Ledger × Option Failure)
    → IsExclusive p
    → IsExclusive (after_sessions now w p x)
unfolding after_sessions
after_sessions-IsExclusive now w p (l, none) v = record {
  gpus = v.gpus;
  once = v.once;
  held = v.held;
}
after_sessions-IsExclusive now w p (l, some f) v = record {
  gpus = v.gpus;
  once = v.once;
  held = v.held;
}

terminate_found-IsExclusive :
    (t : Stop) (reason : String) (w : ℕ) (p : Platform)
    → IsExclusive p
    → IsExclusive (terminate_found t reason w p)
unfolding terminate_found end_sessions release_ports
terminate_found-IsExclusive t reason w p v =
    let marked = change_row w (terminating_row reason t.now) p in
    let o = find_first (gpu_of w) p.allocations in
    let released = release_gpu_of t.now o marked in
    let r =
      release_gpu_of-IsExclusive t.now (gpu_of w) o marked refl
        (record { gpus = v.gpus; once = v.once; held = v.held }) in
    let ported = release_ports t w released in
    after_sessions-IsExclusive t.now w ported (finalize_usage_sessions t.sessions w ported.ledger)
      (record { gpus = r.gpus; once = r.once; held = r.held })

pub terminate_workspace-IsExclusive :
    (t : Stop) (reason : String) (w : ℕ) (p : Platform)
    → IsExclusive p
    → IsExclusive (terminate_workspace t reason w p)
unfolding terminate_workspace
terminate_workspace-IsExclusive t reason w p v =
    elim (Option-cases (find_first (workspace_with_id w) p.workspaces)) [
      | inl gone ↦ rw (gone, terminate_workspace) v
      | inr (ws, there) ↦
          rw (there, terminate_workspace) (terminate_found-IsExclusive t reason w p v)
    ]
