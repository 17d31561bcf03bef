-- ===== src/Runs/Admission.antt =====
-- Whom apps/api/src/routes/v1/runs.ts lets in: who may queue a run, and which reports of an agent
-- change one.
use final_aldaro.Common.{
  ℕ, ◌≤◌, ◌<◌, ◌≡◌, ◌≢◌, refl, inl, inr, Bool, true, Option, none, some, ◌∷◌, find_first, arith,
  Option-cases,
}
use final_aldaro.Runs.Rows.{
  Run, RunStatus, RunWorld, RunEventKind, Outside, status_event, log_event, metric_event,
  artifact_event, heartbeat_event, error_event, command_event, find_run,
}
use final_aldaro.Runs.Requests.{
  User, RunRequest, is_well_formed, active_runs, billed_since, is_over_limit, new_run, insert_run,
  create_run,
}
use final_aldaro.Runs.Events.{
  receive_state, AgentToken, session_with_id, keep_event, handle_event, receive_event,
}

insert_run_made :
    (r : Run) (w : RunWorld)
    → (insert_run r w).1 ≡ 201
    → (find_run r.id w ≡ none) × ((insert_run r w).0.runs ≡ r ∷ w.runs)
unfolding insert_run
insert_run_made r w made = elim (Option-cases (find_run r.id w)) [
  | inl fresh ↦ (fresh, rw (fresh, insert_run) refl)
  | inr (x, taken) ↦
      let refused : 500 ≡ 201 = rw (taken, insert_run) at made in absurd (omega (arith, refused))
]

-- When a run is created, the user is an alpha tester below both limits, the GPU is supported, the
-- duration is at most 24 hours, the id was free, and the run comes into the table as queued.
pub create_run_admitted :
    (is_supported : ℕ → Bool) (id now today user : ℕ) (u : User) (q : RunRequest) (w : RunWorld)
    → (create_run is_supported id now today user (some u) q w).1 ≡ 201
    → (active_runs u.id w < u.max_concurrent_runs)
      × (billed_since u.id today w < u.daily_spend_limit_seconds)
      × (u.is_alpha_tester ≡ true)
      × (is_supported q.gpu_type ≡ true)
      × (q.hours_max ≤ 24)
      × (find_run id w ≡ none)
      × ((create_run is_supported id now today user (some u) q w).0.runs
          ≡ new_run id user now q ∷ w.runs)
unfolding create_run is_well_formed is_over_limit
create_run_admitted is_supported id now today user u q w made =
    ground (arith, insert_run_made (new_run id user now q) w)

receive_state_refused :
    (out : Outside) (now run : ℕ) (state : Option RunStatus) (w : RunWorld)
    → (receive_state out now run state w).1 ≢ 200
    → (receive_state out now run state w).0 ≡ w
unfolding receive_state
receive_state_refused out now run state w h = ground arith

handle_event_refused :
    (out : Outside) (now run session : ℕ) (kind : RunEventKind) (w : RunWorld)
    → (handle_event out now run session kind w).1 ≢ 200
    → (handle_event out now run session kind w).0 ≡ w
unfolding handle_event
handle_event_refused out now run session (status_event state) w h =
    receive_state_refused out now run state w h
handle_event_refused out now run session log_event w h = refl
handle_event_refused out now run session metric_event w h = refl
handle_event_refused out now run session artifact_event w h = refl
handle_event_refused out now run session heartbeat_event w h = refl
handle_event_refused out now run session error_event w h = refl
handle_event_refused out now run session command_event w h = refl

-- An agent's event that is not answered by 200 leaves the runs, the calls of Stripe and the
-- platform as they were.
pub receive_event_refused :
    (out : Outside) (now run : ℕ) (token : Option AgentToken) (kind : RunEventKind) (w : RunWorld)
    → (receive_event out now run token kind w).1 ≢ 200
    → ((receive_event out now run token kind w).0.runs ≡ w.runs)
      × ((receive_event out now run token kind w).0.meter ≡ w.meter)
      × ((receive_event out now run token kind w).0.platform ≡ w.platform)
unfolding receive_event keep_event
receive_event_refused out now run none kind w h = (refl, refl, refl)
receive_event_refused out now run (some token) kind w h =
    elim (Option-cases (find_first (session_with_id token.agent_session_id) w.agent_sessions)) [
      | inl gone ↦ ground arith
      | inr (s, there) ↦
          let same = handle_event_refused out now run s.id kind (keep_event now run s.id kind w) in
          ground (arith, same)
    ]
