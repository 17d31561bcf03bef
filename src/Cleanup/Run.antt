-- ===== src/Cleanup/Run.antt =====
-- One attempt at a cleanup: `processCleanupJob` of worker/src/jobs/workspace-cleanup.ts around its `try`
-- block.
use Prim.Native.String.{String}
use final_aldaro.Common.{
  ℕ, ◌+◌, ◌-◌, ◌*◌, ◌/◌, Option, none, some, List, [], ◌∷◌, leb, if◌then◌else◌, or_else, get_or,
  length, find_first, update_many,
}
use final_aldaro.Billing.Rows.{Failure, ErrorCode, named}
use final_aldaro.Billing.Metering.{text_or}
use final_aldaro.Cleanup.Rows.{
  Workspace, CleanupJob, Incident, Platform, running, retry, failed, opened, workspace_with_id,
  job_with_id, unresolved_of,
}
use final_aldaro.Cleanup.Attempt.{
  Run, started_row, counted_row, failure_row, noted_row, incident_row, Act, and_then, write,
  swallowed, attempt,
}

abbrev pub cleanup_backoff_ms : List ℕ
cleanup_backoff_ms = 10_000 ∷ 30_000 ∷ 60_000 ∷ 120_000 ∷ 300_000 ∷ 900_000 ∷ []

unfoldable pub backoff_base : ℕ → ℕ
backoff_base attempt_count =
    if leb attempt_count 0
    then get_or cleanup_backoff_ms 0 0
    else if leb (length cleanup_backoff_ms) (attempt_count - 1)
    then get_or cleanup_backoff_ms (length cleanup_backoff_ms - 1) 0
    else get_or cleanup_backoff_ms (attempt_count - 1) 0

-- `Math.round(base + base * 0.1 * (Math.random() * 2 - 1))` in exact arithmetic: a draw is
-- `random / 2 ^ 53`, so the sum is `base * (9 * 2 ^ 53 + 2 * random) / (10 * 2 ^ 53)`.
unfoldable pub next_cleanup_backoff : ℕ → ℕ → ℕ
next_cleanup_backoff random attempt_count =
    (2 * (backoff_base attempt_count * (9 * 9_007_199_254_740_992 + 2 * random))
      + 10 * 9_007_199_254_740_992)
    / (20 * 9_007_199_254_740_992)

-- The update before the `try` block.
abbrev pub start_row : ℕ → CleanupJob → CleanupJob
start_row now j = record j {
  status = running;
  attempt_count = j.attempt_count + 1;
  last_attempt_at = some now;
}

abbrev pub count_attempt : ℕ → Workspace → Workspace
count_attempt now ws = record ws {
  cleanup_attempt_count = ws.cleanup_attempt_count + 1;
  cleanup_last_attempt_at = some now;
  updated_at = now;
}

abbrev pub start_job : Run → CleanupJob → Platform → Platform
start_job run job p = record p {
  jobs = update_many (job_with_id job.id) (start_row run.now) p.jobs;
}

-- The attempt is counted on the workspace's row too, where that update does not fail.
unfoldable pub start_attempt : Run → CleanupJob → Platform → Platform
start_attempt run job p =
    (swallowed
      (write run counted_row (λ p. record p {
        workspaces =
            update_many (workspace_with_id job.workspace_id) (count_attempt run.now) p.workspaces;
      }))
      (start_job run job p)).0

-- `errorDetails`: an error's code, or the status of its response.
abbrev pub error_code : Failure → ErrorCode
error_code f = or_else f.code (named "CLEANUP_FAILED")

abbrev pub error_message : Failure → String
error_message f = or_else (text_or f.message none) "Cleanup failed"

-- The next attempt after the failure of attempt `n` of `most`.
unfoldable pub next_attempt : Run → (n most : ℕ) → Option ℕ
next_attempt run n most =
    if leb most n then none else some (run.later + next_cleanup_backoff run.random n)

abbrev pub failed_row : Run → (n most : ℕ) → Failure → CleanupJob → CleanupJob
failed_row run n most f j = record j {
  status = if leb most n then failed else retry;
  last_error_code = some (error_code f);
  last_error_message = some (error_message f);
  next_attempt_at = next_attempt run n most;
}

abbrev pub note_failure : Run → (n most : ℕ) → Failure → Workspace → Workspace
note_failure run n most f ws = record ws {
  cleanup_next_retry_at = next_attempt run n most;
  cleanup_last_error_code = some (error_code f);
  cleanup_last_error_message = some (error_message f);
  updated_at = run.later;
}

abbrev pub seen_again : ℕ → String → Incident → Incident
seen_again now reason i = record i { last_seen_at = now; count = i.count + 1; description = reason }

-- The first unresolved incident of the workspace counts on, or there is a new one.
unfoldable pub mark_incident : ℕ → ℕ → String → List Incident → List Incident
mark_incident now workspace reason [] =
    record {
      workspace_id = workspace;
      status = opened;
      count = 1;
      description = reason;
      last_seen_at = now;
    }
    ∷ []
mark_incident now workspace reason (i ∷ is) =
    if unresolved_of workspace i
    then seen_again now reason i ∷ is
    else i ∷ mark_incident now workspace reason is

unfoldable pub note_incident : Run → CleanupJob → (n most : ℕ) → Failure → Act
note_incident run job n most f p =
    if leb most n
    then write run incident_row
        (λ p. record p {
          incidents = mark_incident run.later job.workspace_id (error_message f) p.incidents;
        })
        p
    else (p, none)

-- The `catch` clause, after attempt `n` of `most`.
unfoldable pub record_failure : Run → CleanupJob → (n most : ℕ) → Failure → Act
record_failure run job n most f =
    and_then
      (write run failure_row (λ p. record p {
        jobs = update_many (job_with_id job.id) (failed_row run n most f) p.jobs;
      }))
      (and_then
        (swallowed (
          write run noted_row (λ p. record p {
            workspaces =
                update_many (workspace_with_id job.workspace_id) (note_failure run n most f)
                  p.workspaces;
          })))
        (note_incident run job n most f))

-- The `try` block and what follows it; `row` is the job's row as the first update returned it.
unfoldable pub try_attempt : Run → CleanupJob → (row : CleanupJob) → Act
try_attempt run job row p =
    let (p', thrown) = attempt run job p in
    elim thrown [
      | none ↦ (p', none)
      | some f ↦ record_failure run job row.attempt_count row.max_attempts f p'
    ]

-- `processCleanupJob`
unfoldable pub process_cleanup_job : Run → CleanupJob → Act
process_cleanup_job run job p = elim (run.fault started_row) [
  | some f ↦ (p, some f)
  | none ↦ elim (find_first (job_with_id job.id) p.jobs) [
    | none ↦ (p, some run.not_found)
    | some old ↦ try_attempt run job (start_row run.now old) (start_attempt run job p)
  ]
]
