-- ===== src/Runs/Events.antt =====
-- What the agent reports: `POST /runs/:run_id/events` of apps/api/src/routes/v1/runs.ts.
use final_aldaro.Common.{
  ℕ, Bool, true, false, not, Option, none, some, ◌∷◌, ◌==◌, if◌then◌else◌, find_first, update_many,
}
use final_aldaro.Runs.Rows.{
  Run, RunStatus, RunWorld, RunEventKind, AgentSession, Outside, queued, provisioning, initializing,
  running, uploading_artifacts, completed, failed, canceled, timed_out, is_finished, status_event,
  on_run, find_run,
}
use final_aldaro.Runs.Billing.{seconds_since, report_run_billing}
use final_aldaro.Runs.Requests.{Response}

-- `VALID_TRANSITIONS`
unfoldable pub is_valid_transition : RunStatus → RunStatus → Bool
is_valid_transition queued provisioning = true
is_valid_transition queued failed = true
is_valid_transition queued canceled = true
is_valid_transition provisioning initializing = true
is_valid_transition provisioning failed = true
is_valid_transition provisioning canceled = true
is_valid_transition initializing running = true
is_valid_transition initializing failed = true
is_valid_transition initializing canceled = true
is_valid_transition running uploading_artifacts = true
is_valid_transition running completed = true
is_valid_transition running failed = true
is_valid_transition running canceled = true
is_valid_transition running timed_out = true
is_valid_transition uploading_artifacts completed = true
is_valid_transition uploading_artifacts failed = true
is_valid_transition _ _ = false

abbrev pub is_start : RunStatus → Bool
is_start running = true
is_start _ = false

-- `updateData`, with the start that was read before.
abbrev pub report_row : (now : ℕ) → RunStatus → Option ℕ → Run → Run
report_row now state start r = record r {
  status = state;
  started_at = if is_start state then some now else r.started_at;
  finished_at = if is_finished state then some now else r.finished_at;
  infra_finished_at = if is_finished state then some now else r.infra_finished_at;
  billed_seconds =
      if is_finished state
      then elim start [ none ↦ r.billed_seconds | some t ↦ seconds_since (some t) now ]
      else r.billed_seconds;
  updated_at = now;
}

-- The seconds go to Stripe when the run is over. `reportUsageToStripe` of apps/api/src/lib/billing.ts
-- is the executor's function with a warning more.
unfoldable pub accept_state : Outside → ℕ → RunStatus → Run → RunWorld → RunWorld
accept_state out now state r w =
    let moved = on_run r.id (report_row now state r.started_at) w in
    if is_finished state then report_run_billing out now r.id moved else moved

unfoldable pub receive_state : Outside → (now run : ℕ) → Option RunStatus → RunWorld → Response
receive_state out now run state w = elim (find_run run w) [
  | none ↦ (w, 404)
  | some r ↦ elim state [
    | none ↦ (w, 400)
    | some s ↦
        if is_valid_transition r.status s then (accept_state out now s r w, 200) else (w, 400)
  ]
]

pub record AgentToken : Type 0 where
  pub run_id : ℕ
  pub agent_session_id : ℕ

abbrev pub session_with_id : ℕ → AgentSession → Bool
session_with_id id s = s.id == id

abbrev pub beat : ℕ → AgentSession → AgentSession
beat now s = record s { last_heartbeat_at = some now }

-- The heartbeat and the event are kept before the event is looked at.
unfoldable pub keep_event : (now run session : ℕ) → RunEventKind → RunWorld → RunWorld
keep_event now run session kind w = record w {
  agent_sessions = update_many (session_with_id session) (beat now) w.agent_sessions;
  events = record { run_id = run; kind = kind; created_at = now } ∷ w.events;
}

unfoldable pub handle_event : Outside → (now run session : ℕ) → RunEventKind → RunWorld → Response
handle_event out now run session kind w = elim kind [
  | status_event state ↦ receive_state out now run state w
  | _ ↦ (w, 200)
]

-- `token` is the verified token of the request, if it has one.
unfoldable pub receive_event :
    Outside → (now run : ℕ) → Option AgentToken → RunEventKind → RunWorld → Response
receive_event out now run none kind w = (w, 401)
receive_event out now run (some token) kind w =
    if not (token.run_id == run)
    then (w, 403)
    else elim (find_first (session_with_id token.agent_session_id) w.agent_sessions) [
      | none ↦ (w, 401)
      | some s ↦
          if not (s.run_id == run)
          then (w, 401)
          else handle_event out now run s.id kind (keep_event now run s.id kind w)
    ]
