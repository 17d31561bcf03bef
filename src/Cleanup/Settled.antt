-- ===== src/Cleanup/Settled.antt =====
-- The job's row after `processCleanupJob` (worker/src/jobs/workspace-cleanup.ts).
use final_aldaro.Common.{
  ℕ, ◌+◌, ◌≤◌, ◌<◌, ◌≡◌, refl, ap, subst, ◌∙◌, inl, inr, ◌⊎◌, true, Option, none, some, List, arith,
  All, All-map, All-update_many, Distinct, Distinct-update_many, find_first_unique,
  find_first-update_many, update_many, find_first, Bool-cases, Option-cases, leb,
}
use final_aldaro.Billing.Rows.{Failure}
use final_aldaro.Cleanup.Rows.{
  CleanupJob, Platform, running, retry, failed, done, is_open, job_with_id,
}
use final_aldaro.Cleanup.Attempt.{
  Run, started_row, counted_row, failure_row, noted_row, incident_row, and_then, write, attempt,
}
use final_aldaro.Cleanup.Run.{
  note_incident, try_attempt, start_row, start_attempt, failed_row, next_attempt,
  next_cleanup_backoff, record_failure, process_cleanup_job,
}
use final_aldaro.Cleanup.Settling.{FinishedAs, attempt-Finishes}

-- What attempt `n` of `most` may leave of the job's row.
abbrev pub Settled : Run → (n most : ℕ) → CleanupJob → Type 0
Settled run n most j =
    (j.attempt_count ≡ n)
    × ((j.status ≡ done)
        ⊎ (((j.status ≡ retry)
              × (n < most)
              × (j.next_attempt_at ≡ some (run.later + next_cleanup_backoff run.random n)))
            ⊎ ((j.status ≡ failed) × (most ≤ n) × (j.next_attempt_at ≡ none))))

abbrev Counted : ℕ → ℕ → CleanupJob → Type 0
Counted id n j = j.id ≡ id → j.attempt_count ≡ n

failed-Settled :
    (run : Run) (n most : ℕ) (f : Failure) (j : CleanupJob)
    → j.attempt_count ≡ n
    → Settled run n most (failed_row run n most f j)
unfolding next_attempt
failed-Settled run n most f j counted = elim (Bool-cases (leb most n)) [
  | inl over ↦ rw (over, next_attempt) (counted, inr (inr (refl, ground arith, refl)))
  | inr left ↦ rw (left, next_attempt) (counted, inr (inl (refl, ground arith, refl)))
]

FinishedAs-none :
    (id : ℕ) (before after : List CleanupJob) (thrown : Option Failure)
    → thrown ≡ none
    → FinishedAs id before after thrown
    → FinishedAs id before after none
FinishedAs-none id before after thrown e = subst (FinishedAs id before after) e

FinishedAs-some :
    (id : ℕ) (before after : List CleanupJob) (thrown : Option Failure) (f : Failure)
    → thrown ≡ some f
    → FinishedAs id before after thrown
    → after ≡ before
FinishedAs-some id before after thrown f e = subst (FinishedAs id before after) e

module _ (run : Run) (id n most : ℕ) (before after : List CleanupJob)
    (counted : All (Counted id n) before) where
  done-Settled : FinishedAs id before after none → All (λ j. j.id ≡ id → Settled run n most j) after
  done-Settled (f, (same, marks)) = rw same (
      All-update_many (Counted id n) _ (job_with_id id) f before
        (λ j h hit _. (marks.count j ∙ h (ground arith), inl (marks.done j)))
        (λ j h miss own. absurd (ground arith)) counted)

  thrown-Settled :
      (f : Failure)
      → after ≡ before
      → All
          (λ j. j.id ≡ id → Settled run n most j)
          (update_many (job_with_id id) (failed_row run n most f) after)
  thrown-Settled f same = rw same (
      All-update_many (Counted id n) _ (job_with_id id) (failed_row run n most f) before
        (λ j h hit _. failed-Settled run n most f j (h (ground arith)))
        (λ j h miss own. absurd (ground arith)) counted)

-- What a failure leaves of the job's row, and of what is thrown, where its writes are answered.
record_failure-Settled :
    (run : Run) (job : CleanupJob) (n most : ℕ) (f : Failure) (p : Platform)
    → run.fault failure_row ≡ none
    → run.fault incident_row ≡ none
    → ((record_failure run job n most f p).1 ≡ none)
      × ((record_failure run job n most f p).0.jobs
          ≡ update_many (job_with_id job.id) (failed_row run n most f) p.jobs)
unfolding record_failure and_then write note_incident
record_failure-Settled run job n most f p fine noted = elim (Bool-cases (leb most n)) [
  | inl over ↦ elim (Option-cases (run.fault noted_row)) [
    | inl told ↦
        rw (fine, over, noted, record_failure, and_then, write, note_incident)
          (rw (told, write) (rw (fine, write) (refl, refl)))
    | inr (g, untold) ↦
        rw (fine, over, noted, record_failure, and_then, write, note_incident)
          (rw (untold, write) (rw (fine, write) (refl, refl)))
  ]
  | inr left ↦ elim (Option-cases (run.fault noted_row)) [
    | inl told ↦
        rw (fine, left, record_failure, and_then, write, note_incident)
          (rw (told, write) (rw (fine, write) (refl, refl)))
    | inr (g, untold) ↦
        rw (fine, left, record_failure, and_then, write, note_incident)
          (rw (untold, write) (rw (fine, write) (refl, refl)))
  ]
]

-- A failure whose first write fails too is thrown, and nothing is written.
record_failure-thrown :
    (run : Run) (job : CleanupJob) (n most : ℕ) (f g : Failure) (p : Platform)
    → run.fault failure_row ≡ some g
    → record_failure run job n most f p ≡ (p, some g)
unfolding record_failure and_then write
record_failure-thrown run job n most f g p bad =
    rw (bad, record_failure, and_then, write) (rw (bad, write) refl)

module _ (run : Run) (job : CleanupJob) (p : Platform) (old : CleanupJob)
    (ids : Distinct (λ (j : CleanupJob). j.id) p.jobs)
    (found : find_first (job_with_id job.id) p.jobs ≡ some old) where
  abbrev started : Platform
  started = start_attempt run job p

  abbrev tried : Platform × Option Failure
  tried = attempt run job started

  started_jobs : started.jobs ≡ update_many (job_with_id job.id) (start_row run.now) p.jobs
  unfolding start_attempt write
  started_jobs = elim (Option-cases (run.fault counted_row)) [
    | inl fine ↦ rw (fine, start_attempt) refl
    | inr (f, bad) ↦ rw (bad, start_attempt) refl
  ]

  finish : FinishedAs job.id started.jobs tried.0.jobs tried.1
  finish = attempt-Finishes run job started

  -- The rows of the job's id are one row, and it has been started.
  only : All (λ j. j.id ≡ job.id → j ≡ start_row run.now old) started.jobs
  only =
      let same : (j : CleanupJob) → (start_row run.now j).id ≡ j.id = λ j. refl in
      rw started_jobs (
        find_first_unique (λ j. j.id) job.id
          (update_many (job_with_id job.id) (start_row run.now) p.jobs) (start_row run.now old)
          (Distinct-update_many (λ j. j.id) _ _ p.jobs same ids)
          (find_first-update_many (job_with_id job.id) (start_row run.now) p.jobs old (λ j. refl)
            found))

  counted : All (Counted job.id (old.attempt_count + 1)) started.jobs
  counted =
      All-map _ _ started.jobs (λ j one own. ap (λ (k : CleanupJob). k.attempt_count) (one own))
        only

  tries :
      run.fault started_row ≡ none
      → process_cleanup_job run job p ≡ try_attempt run job (start_row run.now old) started
  unfolding process_cleanup_job
  tries began = rw (began, process_cleanup_job) (rw (found, process_cleanup_job) refl)

  -- With distinct job ids, an attempt at a job whose row is there returns, whatever the parts of
  -- the try block answer, where the updates of the job and of the incident outside of that block
  -- are answered: it counts one attempt, and leaves the job done, or to be retried after the
  -- backoff with attempts left, or failed with none left.
  pub process_cleanup_job-settles :
      run.fault started_row ≡ none
      → run.fault failure_row ≡ none
      → run.fault incident_row ≡ none
      → ((process_cleanup_job run job p).1 ≡ none)
        × All
            (λ j. j.id ≡ job.id → Settled run (old.attempt_count + 1) old.max_attempts j)
            (process_cleanup_job run job p).0.jobs
  unfolding try_attempt
  process_cleanup_job-settles began fine noted = rw (tries began) (elim (Option-cases tried.1) [
    | inl well ↦
        rw (well, try_attempt)
          (
            refl,
            done-Settled run job.id _ _ _ _ counted
                (FinishedAs-none job.id _ _ tried.1 well finish),
          )
    | inr (f, bad) ↦
        let (none_thrown, same) =
          record_failure-Settled run job (old.attempt_count + 1) old.max_attempts f tried.0 fine
            noted in
        rw (bad, try_attempt)
          (
            none_thrown,
            rw same (
                thrown-Settled run job.id _ _ _ _ counted f
                  (FinishedAs-some job.id _ _ tried.1 f bad finish)),
          )
  ])

  -- With distinct job ids and the job's row there and started, where the try block throws and the
  -- update of the job in the catch clause fails too, that second error leaves the attempt, which
  -- has counted: the job stays RUNNING, which is a status that a later turn takes up.
  pub process_cleanup_job-throws :
      (f g : Failure)
      → run.fault started_row ≡ none
      → (attempt run job (start_attempt run job p)).1 ≡ some f
      → run.fault failure_row ≡ some g
      → ((process_cleanup_job run job p).1 ≡ some g)
        × All
            (λ j.
              j.id ≡ job.id
              → (j.status ≡ running)
                × (j.attempt_count ≡ old.attempt_count + 1)
                × (is_open j.status ≡ true))
            (process_cleanup_job run job p).0.jobs
  unfolding try_attempt
  process_cleanup_job-throws f g began bad refused = rw (tries began) (
      rw (bad, try_attempt)
        (rw
          (record_failure-thrown run job (old.attempt_count + 1) old.max_attempts f g tried.0
            refused)
          (
            refl,
            rw (FinishedAs-some job.id _ _ tried.1 f bad finish) (
                All-map _ _ started.jobs
                  (λ j one own.
                    let same : j ≡ start_row run.now old = one own in
                    (
                      ap (λ (k : CleanupJob). k.status) same,
                      ap (λ (k : CleanupJob). k.attempt_count) same,
                      ap (λ (k : CleanupJob). is_open k.status) same,
                    ))
                  only),
          )))
