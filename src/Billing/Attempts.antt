-- ===== src/Billing/Attempts.antt =====
-- Retries of meter events: how often an event is tried, and what its requests say.
use final_aldaro.Common.{
  ℕ, ◌≤◌, ◌<◌, ◌≡◌, refl, sym, ap, ◌∙◌, inl, inr, Bool, true, false, some, List, [], ◌∷◌, arith,
  All, All-map, All-both, All-append, All-take, All-find_many, All-order_by, All-update_many,
  find_first, find_first-Distinct, Option-cases,
}
use final_aldaro.Billing.Rows.{
  UsageSession, MeterEvent, Ledger, SessionStatus, running, ended, of_session, is_due,
}
use final_aldaro.Billing.Metering.{
  MeterWorld, MeterRequest, meter_request, sent_row, failed_row, event_with_id, send_meter_event,
  process_meter_event, due_events,
}
use final_aldaro.Billing.Ledger.{Accounted, AccountedAs, IsLedger}
use final_aldaro.Billing.Emission.{SendResult-cases, Attempted, process_meter_event-Attempted}
use final_aldaro.Billing.Batch.{process_each, process_workspace_meter_events}

-- An event that waits has attempts left, and no event has had more than its share.
pub record IsBounded (r : MeterEvent) : Type 0 where
  pub left : is_due r.status ≡ true → r.attempt_count < r.max_attempts
  pub share : r.attempt_count ≤ r.max_attempts

-- The row of the event `e` is still as `e` was read.
abbrev pub Unchanged : MeterEvent → MeterEvent → Type 0
Unchanged e r =
    r.id ≡ e.id
    → (r.status ≡ e.status)
      × (r.attempt_count ≡ e.attempt_count)
      × (r.max_attempts ≡ e.max_attempts)

abbrev Tried : MeterEvent → MeterEvent → Type 0
Tried e r = IsBounded r × Unchanged e r

sent_row-IsBounded :
    (w : MeterWorld) (i : ℕ) (e r : MeterEvent)
    → is_due e.status ≡ true
    → Tried e r
    → event_with_id e.id r ≡ true
    → IsBounded (sent_row w i r)
unfolding sent_row
sent_row-IsBounded w i e r due (b, same) hit =
    let (status, attempts, most) = same (ground arith) in
    let room : r.attempt_count < r.max_attempts = b.left (ap is_due status ∙ due) in
    record { left = λ h. cc h; share = omega arith }

failed_row-IsBounded :
    (w : MeterWorld) (e r : MeterEvent) (f : _)
    → is_due e.status ≡ true
    → Tried e r
    → event_with_id e.id r ≡ true
    → IsBounded (failed_row w e f r)
unfolding failed_row
failed_row-IsBounded w e r f due (b, same) hit =
    let (status, attempts, most) = same (ground arith) in
    let room : r.attempt_count < r.max_attempts = b.left (ap is_due status ∙ due) in
    record { left = λ h. ground arith; share = omega arith }

-- An attempt at a due event whose row is as it was read keeps every event within its
-- `maxAttempts`, and one that is still to be retried has an attempt left.
pub process_meter_event-IsBounded :
    (w : MeterWorld) (e : MeterEvent) (l l' : Ledger)
    → is_due e.status ≡ true
    → All (Unchanged e) l.outbox
    → All IsBounded l.outbox
    → (process_meter_event w e l).0 ≡ some l'
    → All IsBounded l'.outbox
process_meter_event-IsBounded w e l l' due same b h = go (process_meter_event-Attempted w e l l' h)
  where
    tried : All (Tried e) l.outbox
    tried = All-both IsBounded (Unchanged e) l.outbox b same

    go : Attempted w e l l' → All IsBounded l'.outbox
    go (inl (i, eq)) = rw eq (
        All-update_many (Tried e) IsBounded (event_with_id e.id) (sent_row w i) l.outbox
          (λ r t hit. sent_row-IsBounded w i e r due t hit) (λ r t _. t.0) tried)
    go (inr (f, eq)) = rw eq (
        All-update_many (Tried e) IsBounded (event_with_id e.id) (failed_row w e f) l.outbox
          (λ r t hit. failed_row-IsBounded w e r f due t hit) (λ r t _. t.0) tried)

-- Where a request says of a session what the session was billed.
abbrev pub Truthful : List UsageSession → MeterRequest → Type 0
Truthful ss q =
    All (λ s. s.id ≡ q.key_session → (s.status ≡ ended) × (q.value ≡ s.billed_seconds)) ss

abbrev TruthfulEvent : List UsageSession → MeterEvent → Type 0
TruthfulEvent ss e =
    All (λ s. s.id ≡ e.usage_session_id → (s.status ≡ ended) × (e.value_seconds ≡ s.billed_seconds))
      ss

entry-tells :
    (st : SessionStatus) (outbox : List MeterEvent) (s : UsageSession) (e : MeterEvent)
    → find_first (of_session s.id) outbox ≡ some e
    → AccountedAs st outbox s
    → (st ≡ ended) × (e.value_seconds ≡ s.billed_seconds)
entry-tells running outbox s e found h = cc
entry-tells ended outbox s e found (e', found', b) =
    let same : e' ≡ e = ground arith in
    (refl, ap (λ (m : MeterEvent). m.value_seconds) (sym same) ∙ b.value)

module _ (l : Ledger) (v : IsLedger l) where
  outbox-Truthful : All (TruthfulEvent l.sessions) l.outbox
  outbox-Truthful =
      All-map _ (TruthfulEvent l.sessions) l.outbox
        (λ e found.
          All-map (Accounted l.outbox) _ l.sessions
            (λ s h same. entry-tells s.status l.outbox s e (of_same s e found same) h) v.accounted)
        (find_first-Distinct (λ e. e.usage_session_id) l.outbox v.events)
    where
      of_same :
          (s : UsageSession) (e : MeterEvent)
          → find_first (of_session e.usage_session_id) l.outbox ≡ some e
          → s.id ≡ e.usage_session_id
          → find_first (of_session s.id) l.outbox ≡ some e
      of_same s e found same = ap (λ k. find_first (of_session k) l.outbox) same ∙ found

process_meter_event-Truthful :
    (w : MeterWorld) (e : MeterEvent) (ss : List UsageSession) (l : Ledger)
    → TruthfulEvent ss e
    → All (Truthful ss) (process_meter_event w e l).1
unfolding process_meter_event meter_request
process_meter_event-Truthful w e ss l h = elim (Option-cases (w.customer e.user_id)) [
  | inl nobody ↦ rw (nobody, process_meter_event) tt
  | inr (c, known) ↦
      elim (SendResult-cases (send_meter_event e (w.fetch (meter_request e c w.now)))) [
        | inl (i, ok) ↦ rw (known, process_meter_event) (rw (ok, process_meter_event) (h, tt))
        | inr (f, bad) ↦ rw (known, process_meter_event) (rw (bad, process_meter_event) (h, tt))
      ]
]

process_each-Truthful :
    (w : MeterEvent → MeterWorld) (ss : List UsageSession) (es : List MeterEvent) (l : Ledger)
    → All (TruthfulEvent ss) es
    → All (Truthful ss) (process_each w es l).1
unfolding process_each
process_each-Truthful w ss [] l h = tt
process_each-Truthful w ss (e ∷ es) l h =
    let now = process_meter_event-Truthful (w e) e ss l h.0 in
    elim (Option-cases (process_meter_event (w e) e l).0) [
      | inl thrown ↦ rw (thrown, process_each) now
      | inr (l', done) ↦
          rw (done, process_each)
            (All-append (Truthful ss) _ _ now (process_each-Truthful w ss es l' h.1))
    ]

-- On tables that are in step, every request that a run of the worker sends is about a session that
-- is closed, if the session is in the table, and carries the seconds that it was billed.
pub process_workspace_meter_events-Truthful :
    (has_key : Bool) (w : MeterEvent → MeterWorld) (now : ℕ) (l : Ledger)
    → IsLedger l
    → All (Truthful l.sessions) (process_workspace_meter_events has_key w now l).1
unfolding process_workspace_meter_events due_events
process_workspace_meter_events-Truthful false w now l v = tt
process_workspace_meter_events-Truthful true w now l v = process_each-Truthful w l.sessions _ l (
    All-take _ 20 _
      (All-order_by _ (λ e. e.created_at) _ (All-find_many _ _ l.outbox (outbox-Truthful l v))))
