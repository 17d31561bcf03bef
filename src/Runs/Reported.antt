-- ===== src/Runs/Reported.antt =====
-- The books under the events of an agent, as apps/api/src/routes/v1/runs.ts takes them.
use final_aldaro.Common.{
  ℕ, refl, inl, inr, not, Option, none, some, List, ◌==◌, arith, find_first, find_first-fits,
  Bool-cases, Option-cases,
}
use final_aldaro.Runs.Rows.{
  Run, RunStatus, RunWorld, RunEventKind, status_event, log_event, metric_event, artifact_event,
  heartbeat_event, error_event, command_event, Outside, MeterCall, is_finished, on_run, find_run,
  run_with_id,
}
use final_aldaro.Runs.Lifecycle.{Next, one, Next-open, is_valid_transition-Next}
use final_aldaro.Runs.Billing.{report_run_billing}
use final_aldaro.Runs.Events.{
  is_valid_transition, report_row, accept_state, receive_state, AgentToken, session_with_id,
  keep_event, handle_event, receive_event,
}
use final_aldaro.Runs.Book.{
  Found, IsSettled, IsBook, Forward-refl, IsSound, IsSound-end, IsSound-move, Turn-change,
}
use final_aldaro.Runs.Billed.{Turning-settle}
use final_aldaro.Runs.Loops.{Kept, Kept-refl, Kept-trans}
use final_aldaro.Runs.Asked.{IsSafe, IsSafe-refl, IsSafe-unless, Turning-Kept}

IsSound-report :
    (now : ℕ) (s : RunStatus) (r : Run) (meter : List MeterCall)
    → Next r.status s
    → IsSettled meter r
    → IsSound (report_row now s r.started_at) r
IsSound-report now s r meter next h = elim (Bool-cases (is_finished s)) [
  | inl over ↦
      IsSound-end (report_row now s r.started_at) r (λ x. refl) refl (one next) (Next-open next)
        over
  | inr on ↦
      IsSound-move (report_row now s r.started_at) r (λ x. refl) meter refl (rw on refl) (one next)
        h
]

accept_state-Kept :
    (out : Outside) (now : ℕ) (s : RunStatus) (r : Run) (w : RunWorld)
    → Next r.status s
    → IsBook w.runs w.meter
    → Found r w.runs
    → Kept w (accept_state out now s r w)
unfolding accept_state
accept_state-Kept out now s r w next b found =
    let change = report_row now s r.started_at in
    let sound = IsSound-report now s r w.meter next (b.settled r found) in
    let told =
      Turning-Kept r.id w (report_run_billing out now r.id (on_run r.id change w))
        (Turning-settle out now change r w w.platform sound b found) in
    let quiet =
      Turning-Kept r.id w (on_run r.id change w)
        (Turn-change change r w.runs w.meter sound b found) in
    elim (Bool-cases (is_finished s)) [
      | inl over ↦ rw (over, accept_state) told
      | inr on ↦ rw (on, accept_state) quiet
    ]

receive_state-Kept :
    (out : Outside) (now run : ℕ) (state : Option RunStatus) (w : RunWorld)
    → IsBook w.runs w.meter
    → Kept w (receive_state out now run state w).0
unfolding receive_state
receive_state-Kept out now run none w b = elim (Option-cases (find_run run w)) [
  | inl gone ↦ rw (gone, receive_state) (Kept-refl w b)
  | inr (r, there) ↦ rw (there, receive_state) (Kept-refl w b)
]
receive_state-Kept out now run (some s) w b = elim (Option-cases (find_run run w)) [
  | inl gone ↦ rw (gone, receive_state) (Kept-refl w b)
  | inr (r, there) ↦ elim (Bool-cases (is_valid_transition r.status s)) [
    | inr refused ↦ rw (there, refused, receive_state) (Kept-refl w b)
    | inl valid ↦
        let fits = find_first-fits (run_with_id run) w.runs r there in
        let found : Found r w.runs = ground arith in
        rw (there, valid, receive_state)
          (accept_state-Kept out now s r w (is_valid_transition-Next r.status s valid) b found)
  ]
]

-- The event and the heartbeat are no concern of the books.
handle_event-Kept :
    (out : Outside) (now run session : ℕ) (kind : RunEventKind) (w v : RunWorld)
    → Kept w v
    → Kept w (handle_event out now run session kind v).0
unfolding handle_event
handle_event-Kept out now run session (status_event state) w v kept =
    Kept-trans w v (receive_state out now run state v).0 kept
      (receive_state-Kept out now run state v kept.0)
handle_event-Kept out now run session log_event w v kept = kept
handle_event-Kept out now run session metric_event w v kept = kept
handle_event-Kept out now run session artifact_event w v kept = kept
handle_event-Kept out now run session heartbeat_event w v kept = kept
handle_event-Kept out now run session error_event w v kept = kept
handle_event-Kept out now run session command_event w v kept = kept

keep_event-Kept :
    (now run session : ℕ) (kind : RunEventKind) (w : RunWorld)
    → IsBook w.runs w.meter
    → Kept w (keep_event now run session kind w)
unfolding keep_event
keep_event-Kept now run session kind w b = (b, Forward-refl w.runs)

receive_event-IsSafe :
    (out : Outside) (now run : ℕ) (token : Option AgentToken) (kind : RunEventKind) (w : RunWorld)
    → IsBook w.runs w.meter
    → IsSafe w (receive_event out now run token kind w)
unfolding receive_event
receive_event-IsSafe out now run none kind w b = IsSafe-refl w 401 b
receive_event-IsSafe out now run (some token) kind w b =
    elim (Option-cases (find_first (session_with_id token.agent_session_id) w.agent_sessions)) [
      | inl gone ↦
          rw (gone, receive_event)
            (IsSafe-unless (not (token.run_id == run)) w 403 _ b (IsSafe-refl w 401 b))
      | inr (s, there) ↦
          let v = keep_event now run s.id kind w in
          let handled : IsSafe w (handle_event out now run s.id kind v) = record {
            kept =
                handle_event-Kept out now run s.id kind w v (keep_event-Kept now run s.id kind w b);
          } in
          rw (there, receive_event)
            (IsSafe-unless (not (token.run_id == run)) w 403 _ b
              (IsSafe-unless (not (s.run_id == run)) w 401 _ b handled))
    ]

pub receive_event-Kept :
    (out : Outside) (now run : ℕ) (token : Option AgentToken) (kind : RunEventKind) (w : RunWorld)
    → IsBook w.runs w.meter
    → Kept w (receive_event out now run token kind w).0
receive_event-Kept out now run token kind w b =
    (receive_event-IsSafe out now run token kind w b).kept
