-- ===== src/Billing/Emission.antt =====
-- What an attempt to emit a meter event changes, and what it leaves alone.
use final_aldaro.Common.{
  ℕ, ◌≡◌, refl, ◌∙◌, inl, inr, ◌⊎◌, Bool, none, some, List, [], ◌∷◌, arith, All-map,
  All-update_many, Distinct-update_many, find_first, update_many, if◌then◌else◌, Bool-cases,
  Option-cases, ◌==◌,
}
use final_aldaro.Billing.Rows.{
  UsageSession, MeterEvent, Ledger, Failure, SessionStatus, running, ended, of_session,
}
use final_aldaro.Billing.Metering.{
  MeterWorld, sent_row, failed_row, stamp, event_with_id, SendResult, accepted, rejected,
  meter_request, missing_customer, not_found, mark_sent, mark_failed, settle_event,
  process_meter_event, send_meter_event,
}
use final_aldaro.Billing.Ledger.{Billed, AccountedAs, Accounted, Apart, OneRunning, IsLedger}

pub SendResult-cases :
    (r : SendResult) → ((i : ℕ) × (r ≡ accepted i)) ⊎ ((f : Failure) × (r ≡ rejected f))
SendResult-cases (accepted i) = inl (i, refl)
SendResult-cases (rejected f) = inr (f, refl)

-- A change of an entry that the sessions do not notice.
pub record Quiet (f : MeterEvent → MeterEvent) : Type 0 where
  pub same_session : (e : MeterEvent) → (f e).usage_session_id ≡ e.usage_session_id
  pub same_value : (e : MeterEvent) → (f e).value_seconds ≡ e.value_seconds
  pub same_user : (e : MeterEvent) → (f e).user_id ≡ e.user_id

module _ (p : MeterEvent → Bool) (f : MeterEvent → MeterEvent) (quiet : Quiet f) where
  absent-update_many :
      (k : ℕ) (es : List MeterEvent)
      → find_first (of_session k) es ≡ none
      → find_first (of_session k) (update_many p f es) ≡ none
  absent-update_many k [] h = refl
  absent-update_many k (e ∷ es) h = ground (arith, quiet.same_session e, absent-update_many k es)

  present-update_many :
      (k : ℕ) (es : List MeterEvent) (e : MeterEvent)
      → find_first (of_session k) es ≡ some e
      → find_first (of_session k) (update_many p f es) ≡ some (if p e then f e else e)
  present-update_many k [] e h = cc
  present-update_many k (x ∷ es) e h =
      ground (arith, quiet.same_session x, present-update_many k es e)

  Billed-quiet :
      (s : UsageSession) (e : MeterEvent) → Billed s e → Billed s (if p e then f e else e)
  Billed-quiet s e b = elim (Bool-cases (p e)) [
    | inl hit ↦ rw hit (record {
      value = quiet.same_value e ∙ b.value;
      user = quiet.same_user e ∙ b.user;
      whole = b.whole;
      cents = b.cents;
    })
    | inr miss ↦ rw miss b
  ]

  AccountedAs-update_many :
      (st : SessionStatus) (es : List MeterEvent) (s : UsageSession)
      → AccountedAs st es s
      → AccountedAs st (update_many p f es) s
  AccountedAs-update_many running es s h = absent-update_many s.id es h
  AccountedAs-update_many ended es s (e, found, billed) =
      (if p e then f e else e, present-update_many s.id es e found, Billed-quiet s e billed)

outbox-IsLedger :
    (p : MeterEvent → Bool) (f : MeterEvent → MeterEvent) (l : Ledger)
    → Quiet f
    → IsLedger l
    → IsLedger (record l { outbox = update_many p f l.outbox })
outbox-IsLedger p f l quiet v = record {
  ids = v.ids;
  events = Distinct-update_many (λ e. e.usage_session_id) p f l.outbox quiet.same_session v.events;
  accounted =
      All-map _ _ l.sessions (λ s h. AccountedAs-update_many p f quiet s.status l.outbox s h)
        v.accounted;
  one_running = v.one_running;
}

module _ (q : UsageSession → Bool) (stripe_id : ℕ) where
  AccountedAs-stamp :
      (st : SessionStatus) (outbox : List MeterEvent) (s : UsageSession)
      → AccountedAs st outbox s
      → AccountedAs st outbox (stamp stripe_id s)
  AccountedAs-stamp running outbox s h = h
  AccountedAs-stamp ended outbox s (e, found, b) =
      (e, found, record { value = b.value; user = b.user; whole = b.whole; cents = b.cents })

  OneRunning-stamp :
      (ss : List UsageSession) → OneRunning ss → OneRunning (update_many q (stamp stripe_id) ss)
  OneRunning-stamp [] h = tt
  OneRunning-stamp (s ∷ ss) h =
      let rest =
        All-update_many (Apart s) (Apart s) q (stamp stripe_id) ss (λ x a _. a) (λ x a _. a) h.0 in
      elim (Bool-cases (q s)) [
        | inl hit ↦ rw hit (rest, OneRunning-stamp ss h.1)
        | inr miss ↦ rw miss (rest, OneRunning-stamp ss h.1)
      ]

  sessions-IsLedger :
      (l : Ledger)
      → IsLedger l
      → IsLedger (record l { sessions = update_many q (stamp stripe_id) l.sessions })
  sessions-IsLedger l v = record {
    ids = Distinct-update_many (λ s. s.id) q (stamp stripe_id) l.sessions (λ s. refl) v.ids;
    events = v.events;
    accounted =
        All-update_many (Accounted l.outbox) (Accounted l.outbox) q (stamp stripe_id) l.sessions
          (λ s h _. AccountedAs-stamp s.status l.outbox s h) (λ s h _. h) v.accounted;
    one_running = OneRunning-stamp l.sessions v.one_running;
  }

-- The ledgers that an attempt can leave.
abbrev pub sent_ledger : MeterWorld → MeterEvent → ℕ → Ledger → Ledger
sent_ledger w e stripe_id l = record {
  sessions = update_many (λ s. s.id == e.usage_session_id) (stamp stripe_id) l.sessions;
  outbox = update_many (event_with_id e.id) (sent_row w stripe_id) l.outbox;
}

abbrev pub failed_ledger : MeterWorld → MeterEvent → Failure → Ledger → Ledger
failed_ledger w e f l = record l {
  outbox = update_many (event_with_id e.id) (failed_row w e f) l.outbox;
}

abbrev pub Attempted : MeterWorld → MeterEvent → Ledger → Ledger → Type 0
Attempted w e l l' =
    ((stripe_id : ℕ) × (l' ≡ sent_ledger w e stripe_id l))
    ⊎ ((f : Failure) × (l' ≡ failed_ledger w e f l))

mark_failed-some :
    (w : MeterWorld) (e : MeterEvent) (f : Failure) (l l' : Ledger)
    → mark_failed w e f l ≡ some l'
    → l' ≡ failed_ledger w e f l
unfolding mark_failed
mark_failed-some w e f l l' h = ground arith

mark_sent-some :
    (w : MeterWorld) (e : MeterEvent) (stripe_id : ℕ) (l l' : Ledger)
    → mark_sent w e stripe_id l ≡ some l'
    → l' ≡ sent_ledger w e stripe_id l
unfolding mark_sent
mark_sent-some w e stripe_id l l' h = ground arith

settle_event-Attempted :
    (w : MeterWorld) (e : MeterEvent) (stripe_id : ℕ) (l l' : Ledger)
    → settle_event w e stripe_id l ≡ some l'
    → Attempted w e l l'
unfolding settle_event
settle_event-Attempted w e stripe_id l l' h = elim (Option-cases w.fault) [
  | inr (f, fault) ↦ inr (f, mark_failed-some w e f l l' (ground arith))
  | inl clear ↦ elim (Option-cases (mark_sent w e stripe_id l)) [
    | inl gone ↦ inr (not_found, mark_failed-some w e not_found l l' (ground arith))
    | inr (m, done) ↦ inl (stripe_id, mark_sent-some w e stripe_id l l' (ground arith))
  ]
]

-- How an attempt that does not throw ends: its event is sent, or has failed once more.
pub process_meter_event-Attempted :
    (w : MeterWorld) (e : MeterEvent) (l l' : Ledger)
    → (process_meter_event w e l).0 ≡ some l'
    → Attempted w e l l'
unfolding process_meter_event
process_meter_event-Attempted w e l l' h = elim (Option-cases (w.customer e.user_id)) [
  | inl nobody ↦ inr (missing_customer, mark_failed-some w e missing_customer l l' (ground arith))
  | inr (c, known) ↦
      elim (SendResult-cases (send_meter_event e (w.fetch (meter_request e c w.now)))) [
        | inl (stripe_id, ok) ↦ settle_event-Attempted w e stripe_id l l' (ground arith)
        | inr (f, bad) ↦ inr (f, mark_failed-some w e f l l' (ground arith))
      ]
]

sent_row-Quiet : (w : MeterWorld) (stripe_id : ℕ) → Quiet (sent_row w stripe_id)
unfolding sent_row
sent_row-Quiet w stripe_id = record {
  same_session = λ e. refl;
  same_value = λ e. refl;
  same_user = λ e. refl;
}

failed_row-Quiet : (w : MeterWorld) (e : MeterEvent) (f : Failure) → Quiet (failed_row w e f)
unfolding failed_row
failed_row-Quiet w e f = record {
  same_session = λ r. refl;
  same_value = λ r. refl;
  same_user = λ r. refl;
}

-- An attempt, however it ends, keeps the two tables in step.
pub Attempted-IsLedger :
    (w : MeterWorld) (e : MeterEvent) (l l' : Ledger)
    → IsLedger l
    → Attempted w e l l'
    → IsLedger l'
Attempted-IsLedger w e l l' v (inl (stripe_id, same)) = rw same (
    sessions-IsLedger (λ s. s.id == e.usage_session_id) stripe_id _
      (outbox-IsLedger (event_with_id e.id) (sent_row w stripe_id) l (sent_row-Quiet w stripe_id)
        v))
Attempted-IsLedger w e l l' v (inr (f, same)) =
    rw same (outbox-IsLedger (event_with_id e.id) (failed_row w e f) l (failed_row-Quiet w e f) v)
