-- ===== src/Runs/Monitor.antt =====
-- Runs that are under way: the stages of worker/src/jobs/run-executor.ts after the start, and the
-- tick that goes through all of them.
use final_aldaro.Common.{
  ℕ, ◌-◌, ◌*◌, Bool, true, false, not, Option, none, some, ◌==◌, ◌&&◌, ◌||◌, is_some, if◌then◌else◌,
  leb, ltb, take, find_many, order_by, max_by,
}
use final_aldaro.Runs.Rows.{
  Run, RunWorld, RunEvent, AgentSession, Outside, running, uploading_artifacts, completed, failed,
  timed_out, is_finished, exceeded_duration, no_session, heartbeat_timeout, status_event, on_run,
  for_each,
}
use final_aldaro.Runs.Billing.{
  seconds_between, clean_up_after, report_run_billing, finalize_run, fail_run,
}
use final_aldaro.Runs.Stages.{
  heartbeat_timeout_ms, artifact_upload_timeout_ms, in_status, process_queued_runs,
  process_provisioning_runs, process_initializing_runs,
}

-- running → timed_out

-- `elapsed >= maxMs`
abbrev pub is_overdue : ℕ → Run → Bool
is_overdue now r = elim r.started_at [
  | none ↦ false
  | some start ↦ leb (r.hours_max * 3600 * 1000) (now - start)
]

abbrev pub time_out_row : ℕ → Run → Run → Run
time_out_row now snapshot r = record r {
  status = timed_out;
  finished_at = some now;
  infra_finished_at = some now;
  billed_seconds = elim snapshot.started_at [ none ↦ 0 | some start ↦ seconds_between start now ];
  error_message = some (exceeded_duration snapshot.hours_max);
  updated_at = now;
}

unfoldable pub time_out_run : Outside → ℕ → Run → RunWorld → RunWorld
time_out_run out now r w =
    report_run_billing out now r.id
      (clean_up_after out "run_timed_out" now r (on_run r.id (time_out_row now r) w))

-- `none` where the run goes on, and the new state where it was timed out.
unfoldable pub check_run_timeout : Outside → ℕ → Run → RunWorld → Option RunWorld
check_run_timeout out now r w = if is_overdue now r then some (time_out_run out now r w) else none

-- running → failed, when the agent is silent

abbrev pub session_of : Run → RunWorld → Option AgentSession
session_of r w = max_by (λ s. s.created_at) (find_many (λ s. s.run_id == r.id) w.agent_sessions)

-- More than five minutes since a time, where there is one.
abbrev pub is_silent_since : ℕ → Option ℕ → Bool
is_silent_since now none = false
is_silent_since now (some t) = ltb heartbeat_timeout_ms (now - t)

unfoldable pub check_run_heartbeat : Outside → ℕ → Run → RunWorld → Option RunWorld
check_run_heartbeat out now r w = elim (session_of r w) [
  | none ↦ if is_silent_since now r.started_at then some (fail_run out now no_session r w) else none
  | some s ↦
      if is_silent_since now s.last_heartbeat_at
      then some (fail_run out now heartbeat_timeout r w)
      else none
]

unfoldable pub process_running_run : Outside → ℕ → Run → RunWorld → RunWorld
process_running_run out now r w = elim (check_run_timeout out now r w) [
  | some v ↦ v
  | none ↦ elim (check_run_heartbeat out now r w) [ some v ↦ v | none ↦ w ]
]

unfoldable pub process_running_runs : Outside → ℕ → RunWorld → RunWorld
process_running_runs out now w =
    for_each (process_running_run out now) (take 50 (find_many (in_status running) w.runs)) w

-- uploading_artifacts → completed

abbrev pub is_status_event : ℕ → RunEvent → Bool
is_status_event run e = e.run_id == run && elim e.kind [ status_event state ↦ true | _ ↦ false ]

-- `payload.state === 'completed' || payload.state === 'failed'`
abbrev pub reports_end : RunEvent → Bool
reports_end e = elim e.kind [
  | status_event (some completed) ↦ true
  | status_event (some failed) ↦ true
  | _ ↦ false
]

abbrev pub latest_status_event : Run → RunWorld → Option RunEvent
latest_status_event r w = max_by (λ e. e.created_at) (find_many (is_status_event r.id) w.events)

abbrev pub upload_is_late : ℕ → Run → Bool
upload_is_late now r = elim r.finished_at [
  | none ↦ false
  | some finish ↦ ltb artifact_upload_timeout_ms (now - finish)
]

abbrev pub upload_is_over : ℕ → Run → RunWorld → Bool
upload_is_over now r w = elim (latest_status_event r w) [
  | none ↦ upload_is_late now r
  | some e ↦ reports_end e || upload_is_late now r
]

unfoldable pub process_uploading_run : Outside → ℕ → Run → RunWorld → RunWorld
process_uploading_run out now r w = if upload_is_over now r w then finalize_run out now r w else w

unfoldable pub process_uploading_artifacts_runs : Outside → ℕ → RunWorld → RunWorld
process_uploading_artifacts_runs out now w =
    for_each (process_uploading_run out now)
      (take 20 (find_many (in_status uploading_artifacts) w.runs)) w

-- timed_out, not yet cleaned up

abbrev pub needs_cleanup : Run → Bool
needs_cleanup r =
    in_status timed_out r && (is_some r.upstream_instance_id && not (is_some r.infra_finished_at))

abbrev pub close_infra_row : ℕ → Run → Run
close_infra_row now r = record r { infra_finished_at = some now; updated_at = now }

unfoldable pub process_timed_out_run : Outside → ℕ → Run → RunWorld → RunWorld
process_timed_out_run out now r w =
    report_run_billing out now r.id
      (clean_up_after out "run_timed_out" now r (on_run r.id (close_infra_row now) w))

unfoldable pub process_timed_out_runs : Outside → ℕ → RunWorld → RunWorld
process_timed_out_runs out now w =
    for_each (process_timed_out_run out now) (take 10 (find_many needs_cleanup w.runs)) w

-- Runs that are finished, and whose seconds Stripe has not taken yet.
abbrev pub is_unreported : Outside → Run → Bool
is_unreported out r =
    not r.stripe_usage_reported
    && (ltb 0 r.billed_seconds && (is_finished r.status && is_some (out.customer_of r.user_id)))

unfoldable pub process_unreported_run_billing : Outside → ℕ → RunWorld → RunWorld
process_unreported_run_billing out now w =
    for_each (λ r. report_run_billing out now r.id)
      (take 25 (order_by (λ r. r.updated_at) (find_many (is_unreported out) w.runs))) w

-- The stages of a tick, each of which reads its runs anew.
pub data Stage : Type 0 where
  queue provision initialize monitor upload clean_up sweep : Stage

unfoldable pub run_stage : Stage → Outside → ℕ → RunWorld → RunWorld
run_stage queue out now w = process_queued_runs out now w
run_stage provision out now w = process_provisioning_runs now w
run_stage initialize out now w = process_initializing_runs out now w
run_stage monitor out now w = process_running_runs out now w
run_stage upload out now w = process_uploading_artifacts_runs out now w
run_stage clean_up out now w = process_timed_out_runs out now w
run_stage sweep out now w = process_unreported_run_billing out now w

unfoldable pub run_executor_tick : Outside → ℕ → RunWorld → RunWorld
run_executor_tick out now w = process_unreported_run_billing out now (
    process_timed_out_runs out now (
      process_uploading_artifacts_runs out now (
        process_running_runs out now (
          process_initializing_runs out now
            (process_provisioning_runs now (process_queued_runs out now w))))))
