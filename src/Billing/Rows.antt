-- ===== src/Billing/Rows.antt =====
-- The tables `usage_sessions` and `workspace_meter_event_outbox` (packages/db/prisma/schema.prisma).
-- Ids, customers and the ids that Stripe hands out are opaque: numbers that are only compared.
-- Times are milliseconds, as `Date.getTime()` gives them.
use final_aldaro.Common.{ℕ, String, Bool, true, false, Option, List, ◌==◌, ◌&&◌}

pub data SessionStatus : Type 0 where
  running ended : SessionStatus

abbrev pub is_running : SessionStatus → Bool
is_running running = true
is_running ended = false

pub record UsageSession : Type 0 where
  pub id : ℕ
  pub user_id : ℕ
  pub workspace_id : ℕ
  pub gpu_type : ℕ
  pub start_time : ℕ
  pub end_time : Option ℕ
  pub total_seconds : ℕ
  pub billed_seconds : ℕ
  pub price_per_hour_cents : ℕ
  pub billed_cents : ℕ
  pub stripe_meter_event_id : Option ℕ
  pub status : SessionStatus

-- A code is a text, or `HTTP_` and the status of a response.
pub data ErrorCode : Type 0 where
  named : String → ErrorCode
  http : ℕ → ErrorCode

-- What a `catch` clause reads of an error.
pub record Failure : Type 0 where
  pub code : Option ErrorCode
  pub message : Option String

pub data EventStatus : Type 0 where
  pending retry sent failed : EventStatus

abbrev pub is_due : EventStatus → Bool
is_due pending = true
is_due retry = true
is_due sent = false
is_due failed = false

pub record MeterEvent : Type 0 where
  pub id : ℕ
  pub usage_session_id : ℕ
  pub user_id : ℕ
  pub workspace_id : ℕ
  pub event_name : String
  pub value_seconds : ℕ
  pub status : EventStatus
  pub attempt_count : ℕ
  pub max_attempts : ℕ
  pub last_attempt_at : Option ℕ
  pub next_attempt_at : Option ℕ
  pub stripe_meter_event_id : Option ℕ
  pub last_error_code : Option ErrorCode
  pub last_error_message : Option String
  pub created_at : ℕ
  pub sent_at : Option ℕ

pub record Ledger : Type 0 where
  pub sessions : List UsageSession
  pub outbox : List MeterEvent

-- The tests of the `where` clauses.
abbrev pub of_session : ℕ → MeterEvent → Bool
of_session sid e = e.usage_session_id == sid

abbrev pub running_with_id : ℕ → UsageSession → Bool
running_with_id sid s = s.id == sid && is_running s.status

abbrev pub running_in : ℕ → UsageSession → Bool
running_in workspace s = s.workspace_id == workspace && is_running s.status
