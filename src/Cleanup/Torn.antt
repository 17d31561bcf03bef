-- ===== src/Cleanup/Torn.antt =====
-- What a cleanup that comes to its end has torn down, write by write.
use final_aldaro.Common.{
  ℕ, ◌≡◌, refl, inl, inr, true, false, Option, none, some, List, [], ◌∷◌, arith, All, All-map,
  any-none, any, update_many, Bool-cases,
}
use final_aldaro.Billing.Rows.{running_in}
use final_aldaro.Billing.Ledger.{IsLedger}
use final_aldaro.Billing.Worker.{finalize_usage_sessions-done}
use final_aldaro.Gateway.Leases.{Endpoint, endpoint_of, active_of, set_released}
use final_aldaro.Cleanup.Rows.{
  Workspace, CleanupJob, FleetGpu, GpuAllocation, Platform, free, terminated, done, gpu_with_id,
  job_with_id, workspace_with_id,
}
use final_aldaro.Cleanup.Attempt.{
  Run, close_sessions, release_gateway_ports, free_gpu, free_gpu_row, release_gpu, terminate_row,
  done_row,
}
use final_aldaro.Cleanup.Settling.{Call-cases}
use final_aldaro.Cleanup.Parts.{
  Stays, Gives, and_then-Stays, and_then-first, write-Stays, write-Gives,
}

-- No session runs in the workspace, and the billing tables are in step.
abbrev pub Idle : ℕ → Platform → Type 0
Idle w p = All (λ s. running_in w s ≡ false) p.ledger.sessions × IsLedger p.ledger

abbrev pub Unleased : ℕ → Platform → Type 0
Unleased w p = All (λ e. active_of w e ≡ false) p.gateway.endpoints

abbrev pub Ended : ℕ → Platform → Type 0
Ended w p = All (λ ws. ws.id ≡ w → ws.status ≡ terminated) p.workspaces

abbrev pub Done : ℕ → Platform → Type 0
Done id p = All (λ j. j.id ≡ id → j.status ≡ done) p.jobs

-- The GPU of the allocation, where there is one.
abbrev pub Freed : Option GpuAllocation → Platform → Type 0
Freed none p = Unit
Freed (some a) p = All (λ g. g.id ≡ a.gpu_id → g.status ≡ free) p.gpus

abbrev pub InStep : Platform → Type 0
InStep p = IsLedger p.ledger

abbrev pub Any : Platform → Type 0
Any p = Unit

pub close_sessions-Gives : (run : Run) (w : ℕ) → Gives InStep (Idle w) (close_sessions run w)
unfolding close_sessions
close_sessions-Gives run w p v e = finalize_usage_sessions-done run.sessions w p.ledger v e

pub release_gateway_ports-Stays : (run : Run) (w : ℕ) → Stays (Idle w) (release_gateway_ports run w)
unfolding release_gateway_ports
release_gateway_ports-Stays run w p h = elim (Call-cases run.call) [
  | inl fine ↦ rw (fine, release_gateway_ports) h
  | inr (true, (f, bad)) ↦ rw (bad, release_gateway_ports) h
  | inr (false, (f, bad)) ↦ rw (bad, release_gateway_ports) h
]

free_gpu_row-Stays : (run : Run) (a : GpuAllocation) (w : ℕ) → Stays (Idle w) (free_gpu_row run a)
unfolding free_gpu_row
free_gpu_row-Stays run a w p h = elim (Bool-cases (any (gpu_with_id a.gpu_id) p.gpus)) [
  | inl there ↦ rw there (write-Stays Any (Idle w) run _ _ (λ q k. k) p h)
  | inr gone ↦ rw gone h
]

pub release_gpu-Stays :
    (run : Run) (a : Option GpuAllocation) (w : ℕ) → Stays (Idle w) (release_gpu run a)
unfolding release_gpu
release_gpu-Stays run none w p h = h
release_gpu-Stays run (some a) w p h =
    and_then-Stays Any (Idle w) (free_gpu_row run a) _ (free_gpu_row-Stays run a w)
      (write-Stays Any (Idle w) run _ _ (λ q k. k)) p h

free_gpu_row-Gives :
    (run : Run) (a : GpuAllocation) → Gives Any (Freed (some a)) (free_gpu_row run a)
unfolding free_gpu_row
free_gpu_row-Gives run a p r e = elim (Bool-cases (any (gpu_with_id a.gpu_id) p.gpus)) [
  | inl there ↦
      rw there (write-Gives Any (Freed (some a)) run _ _ (λ q _. freed q.gpus) p tt (rw there at e))
  | inr gone ↦ rw gone (
      All-map _ _ p.gpus (λ g miss own. absurd (ground arith))
        (any-none (gpu_with_id a.gpu_id) p.gpus gone))
]
  where
    freed :
        (gs : List FleetGpu)
        → All
            (λ g. g.id ≡ a.gpu_id → g.status ≡ free)
            (update_many (gpu_with_id a.gpu_id) free_gpu gs)
    freed [] = tt
    freed (g ∷ gs) = elim (Bool-cases (gpu_with_id a.gpu_id g)) [
      | inl hit ↦ rw hit (λ _. refl, freed gs)
      | inr miss ↦ rw miss (λ own. absurd (ground arith), freed gs)
    ]

pub release_gpu-Gives :
    (run : Run) (a : Option GpuAllocation) → Gives Any (Freed a) (release_gpu run a)
unfolding release_gpu
release_gpu-Gives run none p r e = tt
release_gpu-Gives run (some a) p r e =
    and_then-first Any (Freed (some a)) (free_gpu_row run a) _ (free_gpu_row-Gives run a)
      (write-Stays Any (Freed (some a)) run _ _ (λ q k. k)) p r e

pub unleased :
    (now w : ℕ) (es : List Endpoint)
    → All (λ e. active_of w e ≡ false) (update_many (endpoint_of w) (set_released now) es)
unleased now w [] = tt
unleased now w (e ∷ es) = elim (Bool-cases (endpoint_of w e)) [
  | inl hit ↦ rw hit (ground arith, unleased now w es)
  | inr miss ↦ rw miss (ground arith, unleased now w es)
]

pub ended :
    (now w : ℕ) (wss : List Workspace)
    → All
        (λ ws. ws.id ≡ w → ws.status ≡ terminated)
        (update_many (workspace_with_id w) (terminate_row now) wss)
ended now w [] = tt
ended now w (ws ∷ wss) = elim (Bool-cases (workspace_with_id w ws)) [
  | inl hit ↦ rw hit (λ _. refl, ended now w wss)
  | inr miss ↦ rw miss (λ own. absurd (ground arith), ended now w wss)
]

pub finished :
    (now id : ℕ) (jobs : List CleanupJob)
    → All (λ j. j.id ≡ id → j.status ≡ done) (update_many (job_with_id id) (done_row now) jobs)
finished now id [] = tt
finished now id (j ∷ jobs) = elim (Bool-cases (job_with_id id j)) [
  | inl hit ↦ rw hit (λ _. refl, finished now id jobs)
  | inr miss ↦ rw miss (λ own. absurd (ground arith), finished now id jobs)
]
