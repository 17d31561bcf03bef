-- ===== src/Billing/Close.antt =====
-- Closing usage sessions: `finalizeUsageSessions` of worker/src/jobs/workspace-cleanup.ts and
-- `endUsageSession` of apps/api/src/services/workspaceService.ts. Each close and the enqueueing of
-- its meter event are one transaction. The clock, the ids that the database makes and the faults
-- of its transactions are arguments; the clock stands still within one transaction.
use final_aldaro.Common.{
  ℕ, ◌-◌, ◌*◌, Option, none, some, List, [], ◌∷◌, ceil_div, find_first, find_many, update, upsert,
  or_else, ◌>>=◌,
}
use final_aldaro.Billing.Rows.{
  UsageSession, MeterEvent, Ledger, Failure, ended, pending, of_session, running_with_id,
  running_in,
}

-- What one close writes, computed from the row as it was read.
pub record Totals : Type 0 where
  pub end_time : ℕ
  pub total_seconds : ℕ
  pub billed_cents : ℕ

-- A session cannot end before it starts: the difference stops at 0, as `Math.max(0, …)` does.
unfoldable pub settle : UsageSession → ℕ → Totals
settle s now = record {
  end_time = now;
  total_seconds = ceil_div (now - s.start_time) 1000;
  billed_cents = ceil_div (ceil_div (now - s.start_time) 1000 * s.price_per_hour_cents) 3600;
}

unfoldable pub close_session : Totals → UsageSession → UsageSession
close_session t s = record s {
  end_time = some t.end_time;
  total_seconds = t.total_seconds;
  billed_seconds = t.total_seconds;
  billed_cents = t.billed_cents;
  status = ended;
}

unfoldable pub requeue : Totals → MeterEvent → MeterEvent
requeue t e = record e {
  value_seconds = t.total_seconds;
  status = pending;
  next_attempt_at = some t.end_time;
  last_error_code = none;
  last_error_message = none;
}

unfoldable pub new_event : UsageSession → Totals → ℕ → MeterEvent
new_event s t event_id = record {
  id = event_id;
  usage_session_id = s.id;
  user_id = s.user_id;
  workspace_id = s.workspace_id;
  event_name = "gpu_seconds";
  value_seconds = t.total_seconds;
  status = pending;
  attempt_count = 0;
  max_attempts = 20;
  last_attempt_at = none;
  next_attempt_at = some t.end_time;
  stripe_meter_event_id = none;
  last_error_code = none;
  last_error_message = none;
  created_at = t.end_time;
  sent_at = none;
}

-- The transaction. `none` is P2025: no running session has this id any more, and nothing is written.
unfoldable pub close_tx : UsageSession → Totals → ℕ → Ledger → Option Ledger
close_tx s t event_id l = do
  sessions' ← update (running_with_id s.id) (close_session t) l.sessions
  some (record l {
    sessions = sessions';
    outbox = upsert (of_session s.id) (requeue t) (new_event s t event_id) l.outbox;
  })

-- What the surroundings answer while a session is closed.
pub record Surroundings : Type 0 where
  pub clock : UsageSession → ℕ
  pub event_id : UsageSession → ℕ
  pub fault : UsageSession → Option Failure

-- The loop of `finalizeUsageSessions` over the sessions that it has read: P2025 is skipped, and
-- any other fault leaves the loop, with what was committed before it.
unfoldable pub close_each : Surroundings → List UsageSession → Ledger → Ledger × Option Failure
close_each w [] l = (l, none)
close_each w (s ∷ ss) l =
    let rest = close_each w ss (or_else (close_tx s (settle s (w.clock s)) (w.event_id s) l) l) in
    elim (w.fault s) [ none ↦ rest | some f ↦ (l, some f) ]

unfoldable pub finalize_usage_sessions : Surroundings → ℕ → Ledger → Ledger × Option Failure
finalize_usage_sessions w workspace l = close_each w (find_many (running_in workspace) l.sessions) l

-- `endUsageSession` closes the first running session of the workspace, if there is one.
unfoldable pub end_usage_session : Surroundings → ℕ → Ledger → Ledger × Option Failure
end_usage_session w workspace l = elim (find_first (running_in workspace) l.sessions) [
  | none ↦ (l, none)
  | some s ↦ elim (w.fault s) [
    | none ↦ (or_else (close_tx s (settle s (w.clock s)) (w.event_id s) l) l, none)
    | some f ↦ (l, some f)
  ]
]
