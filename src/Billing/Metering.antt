-- ===== src/Billing/Metering.antt =====
-- Emitting meter events to Stripe: worker/src/jobs/workspace-metering.ts. The table of users, the
-- answers of Stripe, the clock and the faults of the transaction are arguments.
use Prim.Native.String.{String}
use final_aldaro.Common.{
  ℕ, ◌+◌, ◌-◌, ◌/◌, Bool, true, Option, none, some, List, [], ◌∷◌, ◌==◌, leb, if◌then◌else◌, ◌>>=◌,
  ◌&&◌, update, find_many, order_by, take, or_else, length, get_or,
}
use final_aldaro.Billing.Rows.{
  UsageSession, MeterEvent, Ledger, ErrorCode, named, http, Failure, is_due, sent, retry, failed,
}

abbrev pub metering_backoff_ms : List ℕ
metering_backoff_ms = 10_000 ∷ 30_000 ∷ 60_000 ∷ 120_000 ∷ 300_000 ∷ 900_000 ∷ []

-- The delay before the next attempt, once `attempt_count` attempts have failed.
unfoldable pub next_backoff : ℕ → ℕ
next_backoff attempt_count =
    if leb attempt_count 0
    then get_or metering_backoff_ms 0 0
    else if leb (length metering_backoff_ms) (attempt_count - 1)
    then get_or metering_backoff_ms (length metering_backoff_ms - 1) 0
    else get_or metering_backoff_ms (attempt_count - 1) 0

-- What is sent: the idempotency key `meter-${usageSessionId}-${id}`, and the body.
pub record MeterRequest : Type 0 where
  pub key_session : ℕ
  pub key_event : ℕ
  pub event_name : String
  pub identifier : ℕ
  pub timestamp : ℕ
  pub value : ℕ
  pub stripe_customer_id : ℕ

unfoldable pub meter_request : MeterEvent → ℕ → ℕ → MeterRequest
meter_request e customer now = record {
  key_session = e.usage_session_id;
  key_event = e.id;
  event_name = e.event_name;
  identifier = e.usage_session_id;
  timestamp = now / 1000;
  value = e.value_seconds;
  stripe_customer_id = customer;
}

-- The fields that are read of the JSON body of an answer.
pub record StripeJson : Type 0 where
  pub identifier : Option ℕ
  pub id : Option ℕ
  pub error_code : Option String
  pub error_message : Option String

-- A call of `fetch`: it throws (also when it is aborted after 15 seconds), or it answers.
pub data FetchResult : Type 0 where
  threw : Failure → FetchResult
  answered : (status : ℕ) (raw : String) (json : Option StripeJson) → FetchResult

-- `a || b` on texts: an empty text counts as missing.
abbrev pub text_or : Option String → Option String → Option String
text_or none b = b
text_or (some String.[]) b = b
text_or (some (String.◌∷◌ c s)) b = some (String.◌∷◌ c s)

abbrev json_message : Option StripeJson → Option String
json_message none = none
json_message (some j) = j.error_message

abbrev json_code : Option StripeJson → Option String
json_code none = none
json_code (some j) = j.error_code

abbrev code_or_status : Option String → ℕ → ErrorCode
code_or_status none status = http status
code_or_status (some c) status = named c

-- `json?.identifier || json?.id || event.usageSessionId`
abbrev event_id_of : Option StripeJson → MeterEvent → ℕ
event_id_of none e = e.usage_session_id
event_id_of (some j) e = or_else j.identifier (or_else j.id e.usage_session_id)

pub data SendResult : Type 0 where
  accepted : ℕ → SendResult
  rejected : Failure → SendResult

-- `response.ok` is a status from 200 to 299.
unfoldable pub send_meter_event : MeterEvent → FetchResult → SendResult
send_meter_event e (threw f) = rejected f
send_meter_event e (answered status raw json) =
    if leb 200 status && leb status 299
    then accepted (event_id_of json e)
    else rejected (record {
      code = some (code_or_status (text_or (json_code json) none) status);
      message =
          text_or (json_message json)
            (text_or (some raw) (some "Failed to emit Stripe meter event"));
    })

pub record MeterWorld : Type 0 where
  pub customer : ℕ → Option ℕ
  pub fetch : MeterRequest → FetchResult
  pub fault : Option Failure
  pub now : ℕ
  pub later : ℕ

-- What a success writes to the event.
unfoldable pub sent_row : MeterWorld → ℕ → MeterEvent → MeterEvent
sent_row w stripe_id r = record r {
  status = sent;
  sent_at = some w.later;
  next_attempt_at = none;
  stripe_meter_event_id = some stripe_id;
  attempt_count = r.attempt_count + 1;
  last_attempt_at = some w.now;
  last_error_code = none;
  last_error_message = none;
}

-- The session's column for Stripe's id.
abbrev pub stamp : ℕ → UsageSession → UsageSession
stamp stripe_id s = record s { stripe_meter_event_id = some stripe_id }

-- What the `catch` clause writes: the event `e` is as it was read, `r` is the row.
unfoldable pub failed_row : MeterWorld → MeterEvent → Failure → MeterEvent → MeterEvent
failed_row w e f r =
    let exhausted = leb e.max_attempts (e.attempt_count + 1) in
    record r {
      status = if exhausted then failed else retry;
      attempt_count = r.attempt_count + 1;
      last_attempt_at = some w.now;
      next_attempt_at =
          if exhausted then none else some (w.later + next_backoff (e.attempt_count + 1));
      last_error_code = some (or_else f.code (named "STRIPE_METER_EMIT_FAILED"));
      last_error_message = text_or f.message (some "Failed to emit Stripe meter event");
    }

abbrev pub event_with_id : ℕ → MeterEvent → Bool
event_with_id id r = r.id == id

unfoldable pub mark_sent : MeterWorld → MeterEvent → ℕ → Ledger → Option Ledger
mark_sent w e stripe_id l = do
  outbox' ← update (event_with_id e.id) (sent_row w stripe_id) l.outbox
  sessions' ← update (λ s. s.id == e.usage_session_id) (stamp stripe_id) l.sessions
  some (record l { outbox = outbox'; sessions = sessions' })

-- The `catch` clause; `none` is P2025, which leaves the batch.
unfoldable pub mark_failed : MeterWorld → MeterEvent → Failure → Ledger → Option Ledger
mark_failed w e f l = do
  outbox' ← update (event_with_id e.id) (failed_row w e f) l.outbox
  some (record l { outbox = outbox' })

abbrev pub missing_customer : Failure
missing_customer = record {
  code = some (named "STRIPE_CUSTOMER_MISSING");
  message = some "Stripe customer is not configured for this user.";
}

abbrev pub not_found : Failure
not_found = record { code = some (named "P2025"); message = some "Record to update not found." }

-- The transaction of a success; its fault, or a missing row, ends in the `catch` clause.
unfoldable pub settle_event : MeterWorld → MeterEvent → ℕ → Ledger → Option Ledger
settle_event w e stripe_id l = elim w.fault [
  | some f ↦ mark_failed w e f l
  | none ↦ elim (mark_sent w e stripe_id l) [
    | some l' ↦ some l'
    | none ↦ mark_failed w e not_found l
  ]
]

-- `processMeterOutboxEvent`, with the request that it sent.
unfoldable pub process_meter_event :
    MeterWorld → MeterEvent → Ledger → Option Ledger × List MeterRequest
process_meter_event w e l = elim (w.customer e.user_id) [
  | none ↦ (mark_failed w e missing_customer l, [])
  | some c ↦
      let request = meter_request e c w.now in
      elim (send_meter_event e (w.fetch request)) [
        | accepted stripe_id ↦ (settle_event w e stripe_id l, request ∷ [])
        | rejected f ↦ (mark_failed w e f l, request ∷ [])
      ]
]

-- `nextAttemptAt: null` or not after `now`.
abbrev pub is_ready : ℕ → Option ℕ → Bool
is_ready now none = true
is_ready now (some t) = leb t now

unfoldable pub due_events : ℕ → Ledger → List MeterEvent
due_events now l = take 20 (
    order_by (λ e. e.created_at)
      (find_many (λ e. is_due e.status && is_ready now e.next_attempt_at) l.outbox))
