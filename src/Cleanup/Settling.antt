-- ===== src/Cleanup/Settling.antt =====
-- What an attempt at a cleanup does to the table of jobs.
use final_aldaro.Common.{
  ℕ, ◌≡◌, refl, subst, ◌∙◌, inl, inr, ◌⊎◌, Bool, true, false, Option, none, some, List, update_many,
  find_first, any, Bool-cases, Option-cases,
}
use final_aldaro.Billing.Rows.{Failure}
use final_aldaro.Cleanup.Rows.{
  Workspace, CleanupJob, GpuAllocation, Platform, done, workspace_with_id, job_with_id, gpu_of,
  gpu_with_id,
}
use final_aldaro.Cleanup.Attempt.{
  Run, Write, provider, job_row, answered, lost, Act, and_then, write, close_sessions,
  release_gateway_ports, delete_machine, free_gpu_row, release_gpu, release_endpoints,
  terminate_workspace, done_row, gone_row, finish_job, finish_gone, tear_down, attempt, Call,
}

-- The part leaves the table of jobs alone, whether it throws or not.
abbrev Keeps : Act → Type 0
Keeps act = (p : Platform) → (act p).0.jobs ≡ p.jobs

write-Keeps :
    (run : Run) (point : Write) (f : Platform → Platform)
    → ((p : Platform) → (f p).jobs ≡ p.jobs)
    → Keeps (write run point f)
unfolding write
write-Keeps run point f same p = elim (Option-cases (run.fault point)) [
  | inl fine ↦ rw (fine, write) (same p)
  | inr (e, bad) ↦ rw (bad, write) refl
]

and_then-Keeps : (first second : Act) → Keeps first → Keeps second → Keeps (and_then first second)
unfolding and_then
and_then-Keeps first second h k p = elim (Option-cases (first p).1) [
  | inl fine ↦ rw (fine, and_then) (k (first p).0 ∙ h p)
  | inr (e, bad) ↦ rw (bad, and_then) (h p)
]

pub Call-cases :
    (call : Call) → (call ≡ answered) ⊎ ((served : Bool) × ((f : Failure) × (call ≡ lost served f)))
Call-cases answered = inl refl
Call-cases (lost served f) = inr (served, (f, refl))

release_gateway_ports-Keeps : (run : Run) (w : ℕ) → Keeps (release_gateway_ports run w)
unfolding release_gateway_ports
release_gateway_ports-Keeps run w p = elim (Call-cases run.call) [
  | inl fine ↦ rw (fine, release_gateway_ports) refl
  | inr (true, (f, bad)) ↦ rw (bad, release_gateway_ports) refl
  | inr (false, (f, bad)) ↦ rw (bad, release_gateway_ports) refl
]

free_gpu_row-Keeps : (run : Run) (a : GpuAllocation) → Keeps (free_gpu_row run a)
unfolding free_gpu_row
free_gpu_row-Keeps run a p = elim (Bool-cases (any (gpu_with_id a.gpu_id) p.gpus)) [
  | inl there ↦ rw there (write-Keeps run _ _ (λ q. refl) p)
  | inr gone ↦ rw gone refl
]

release_gpu-Keeps : (run : Run) (a : Option GpuAllocation) → Keeps (release_gpu run a)
unfolding release_gpu
release_gpu-Keeps run none p = refl
release_gpu-Keeps run (some a) p =
    and_then-Keeps (free_gpu_row run a) _ (free_gpu_row-Keeps run a)
      (write-Keeps run _ _ (λ q. refl)) p

-- The job's row is marked as done, and nothing else of the table changes; or an error leaves it.
pub record Marks (f : CleanupJob → CleanupJob) : Type 0 where
  pub done : (j : CleanupJob) → (f j).status ≡ done
  pub count : (j : CleanupJob) → (f j).attempt_count ≡ j.attempt_count

abbrev pub FinishedAs : ℕ → List CleanupJob → List CleanupJob → Option Failure → Type 0
FinishedAs id before after none =
    (f : CleanupJob → CleanupJob) × ((after ≡ update_many (job_with_id id) f before) × Marks f)
FinishedAs id before after (some e) = after ≡ before

abbrev pub Finishes : ℕ → Act → Type 0
Finishes id act = (p : Platform) → FinishedAs id p.jobs (act p).0.jobs (act p).1

FinishedAs-from :
    (id : ℕ) (a b c : List CleanupJob) (thrown : Option Failure)
    → b ≡ a
    → FinishedAs id b c thrown
    → FinishedAs id a c thrown
FinishedAs-from id a b c thrown same = subst (λ x. FinishedAs id x c thrown) same

and_then-Finishes :
    (id : ℕ) (first second : Act)
    → Keeps first
    → Finishes id second
    → Finishes id (and_then first second)
unfolding and_then
and_then-Finishes id first second h k p = elim (Option-cases (first p).1) [
  | inl fine ↦
      rw (fine, and_then) (FinishedAs-from id p.jobs (first p).0.jobs _ _ (h p) (k (first p).0))
  | inr (e, bad) ↦ rw (bad, and_then) (h p)
]

write-Finishes :
    (run : Run) (id : ℕ) (f : CleanupJob → CleanupJob)
    → Marks f
    → Finishes id
        (write run job_row (λ p. record p { jobs = update_many (job_with_id id) f p.jobs }))
unfolding write
write-Finishes run id f marks p = elim (Option-cases (run.fault job_row)) [
  | inl fine ↦ rw (fine, write) (f, (refl, marks))
  | inr (e, bad) ↦ rw (bad, write) refl
]

tear_down-Finishes :
    (run : Run) (id : ℕ) (ws : Workspace) (a : Option GpuAllocation)
    → Finishes id (tear_down run id ws a)
unfolding tear_down close_sessions delete_machine release_endpoints terminate_workspace finish_job
tear_down-Finishes run id ws a =
    and_then-Finishes id _ _ (λ p. refl)
      (and_then-Finishes id _ _ (release_gateway_ports-Keeps run ws.id) (
        and_then-Finishes id _ _ (λ p. refl)
          (and_then-Finishes id _ _ (release_gpu-Keeps run a) (
            and_then-Finishes id _ _ (write-Keeps run _ _ (λ p. refl)) (
              and_then-Finishes id _ _ (write-Keeps run _ _ (λ p. refl)) (
                write-Finishes run id (done_row run.later)
                  (record { done = λ j. refl; count = λ j. refl })))))))

pub attempt-Finishes : (run : Run) (job : CleanupJob) → Finishes job.id (attempt run job)
unfolding attempt finish_gone
attempt-Finishes run job p = elim (Option-cases (run.fault provider)) [
  | inr (e, bad) ↦ rw (bad, attempt) refl
  | inl fine ↦ elim (Option-cases (find_first (workspace_with_id job.workspace_id) p.workspaces)) [
    | inl gone ↦
        rw (fine, attempt)
          (rw (gone, attempt)
            (write-Finishes run job.id (gone_row run.later)
              (record { done = λ j. refl; count = λ j. refl }) p))
    | inr (ws, there) ↦
        rw (fine, attempt)
          (rw (there, attempt)
            (tear_down-Finishes run job.id ws (find_first (gpu_of ws.id) p.allocations) p))
  ]
]
