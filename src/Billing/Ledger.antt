-- ===== src/Billing/Ledger.antt =====
-- The invariant of the two billing tables together, and the transaction of a close against it: what
-- worker/src/jobs/workspace-cleanup.ts and the API name INV-1 (one running session to a workspace),
-- INV-3 and INV-6 (a closed session has its outbox entry).
use final_aldaro.Common.{
  ℕ, ◌*◌, ◌≡◌, refl, sym, ◌∙◌, ◌≢◌, inl, inr, none, some, true, false, List, [], ◌∷◌, arith, All,
  All-map, All-both, All-update_many, Distinct, Distinct-any, Distinct-update_many, Distinct-upsert,
  find_first, find_first-upsert, find_first-upsert_other, update_many, upsert, any, ceil_div,
  Bool-cases, ==_refl,
}
use final_aldaro.Billing.Rows.{
  UsageSession, SessionStatus, MeterEvent, Ledger, running, ended, is_running, of_session,
  running_with_id,
}
use final_aldaro.Billing.Close.{Totals, close_session, requeue, new_event, settle, close_tx}

-- The outbox entry of a closed session, with the seconds and the user that the session was billed.
pub record Billed (s : UsageSession) (e : MeterEvent) : Type 0 where
  pub value : e.value_seconds ≡ s.billed_seconds
  pub user : e.user_id ≡ s.user_id
  pub whole : s.billed_seconds ≡ s.total_seconds
  pub cents : s.billed_cents ≡ ceil_div (s.billed_seconds * s.price_per_hour_cents) 3600

abbrev pub AccountedAs : SessionStatus → List MeterEvent → UsageSession → Type 0
AccountedAs running outbox s = find_first (of_session s.id) outbox ≡ none
AccountedAs ended outbox s =
    (e : MeterEvent) × (find_first (of_session s.id) outbox ≡ some e) × Billed s e

abbrev pub Accounted : List MeterEvent → UsageSession → Type 0
Accounted outbox s = AccountedAs s.status outbox s

unbilled :
    (st : SessionStatus) (outbox : List MeterEvent) (s : UsageSession)
    → is_running st ≡ true
    → AccountedAs st outbox s
    → find_first (of_session s.id) outbox ≡ none
unbilled running outbox s run h = h
unbilled ended outbox s run h = cc

same_entry :
    (st : SessionStatus) (outbox outbox' : List MeterEvent) (s : UsageSession)
    → find_first (of_session s.id) outbox' ≡ find_first (of_session s.id) outbox
    → AccountedAs st outbox s
    → AccountedAs st outbox' s
same_entry running outbox outbox' s e h = e ∙ h
same_entry ended outbox outbox' s e (entry, found, billed) = (entry, e ∙ found, billed)

-- No two running sessions share a workspace.
abbrev pub Apart : UsageSession → UsageSession → Type 0
Apart s t =
    is_running s.status ≡ true → is_running t.status ≡ true → t.workspace_id ≢ s.workspace_id

abbrev pub OneRunning : List UsageSession → Type 0
OneRunning [] = Unit
OneRunning (s ∷ ss) = All (Apart s) ss × OneRunning ss

pub record IsLedger (l : Ledger) : Type 0 where
  pub ids : Distinct (λ (s : UsageSession). s.id) l.sessions
  pub events : Distinct (λ (e : MeterEvent). e.usage_session_id) l.outbox
  pub accounted : All (Accounted l.outbox) l.sessions
  pub one_running : OneRunning l.sessions

-- The row `r` still holds what `s`, read from it earlier, says of its user, price and start.
abbrev pub Snapshot : UsageSession → UsageSession → Type 0
Snapshot s r =
    r.id ≡ s.id
    → (r.user_id ≡ s.user_id)
      × (r.price_per_hour_cents ≡ s.price_per_hour_cents)
      × (r.start_time ≡ s.start_time)

-- The ledger after a transaction that went through.
abbrev pub closed_ledger : UsageSession → Totals → ℕ → Ledger → Ledger
closed_ledger s t event_id l = record {
  sessions = update_many (running_with_id s.id) (close_session t) l.sessions;
  outbox = upsert (of_session s.id) (requeue t) (new_event s t event_id) l.outbox;
}

pub close_tx-some :
    (s : UsageSession) (t : Totals) (event_id : ℕ) (l l' : Ledger)
    → close_tx s t event_id l ≡ some l'
    → (any (running_with_id s.id) l.sessions ≡ true) × (l' ≡ closed_ledger s t event_id l)
unfolding close_tx
close_tx-some s t event_id l l' e = ground arith

module _ (s : UsageSession) (t : Totals) where
  Apart-update_many :
      (r : UsageSession) (rs : List UsageSession)
      → All (Apart r) rs
      → All (Apart r) (update_many (running_with_id s.id) (close_session t) rs)
  unfolding close_session
  Apart-update_many r rs =
      All-update_many (Apart r) (Apart r) (running_with_id s.id) (close_session t) rs
        (λ x h hit run run'. cc run') (λ x h miss. h)

  OneRunning-update_many :
      (rs : List UsageSession)
      → OneRunning rs
      → OneRunning (update_many (running_with_id s.id) (close_session t) rs)
  unfolding close_session
  OneRunning-update_many [] h = tt
  OneRunning-update_many (r ∷ rs) h =
      let rest = (Apart-update_many r rs h.0) in
      let tail = OneRunning-update_many rs h.1 in
      elim (Bool-cases (running_with_id s.id r)) [
        | inl hit ↦ rw hit (All-map (λ x. Apart r x) _ _ (λ x h run. cc run) rest, tail)
        | inr miss ↦ rw miss (rest, tail)
      ]

module _ (s : UsageSession) (t : Totals) (event_id : ℕ) where
  event_of_closed :
      (k : ℕ) (outbox : List MeterEvent)
      → k ≡ s.id
      → find_first (of_session k) outbox ≡ none
      → find_first
          (of_session k)
          (upsert (of_session s.id) (requeue t) (new_event s t event_id) outbox)
        ≡ some (new_event s t event_id)
  unfolding requeue new_event
  event_of_closed k outbox e h = rw e (
      find_first-upsert (of_session s.id) (requeue t) (new_event s t event_id) outbox (==_refl s.id)
        (λ x p. p) (rw e at h))

  event_of_other :
      (k : ℕ) (outbox : List MeterEvent)
      → k ≢ s.id
      → find_first
          (of_session k)
          (upsert (of_session s.id) (requeue t) (new_event s t event_id) outbox)
        ≡ find_first (of_session k) outbox
  unfolding requeue new_event
  event_of_other k outbox other =
      find_first-upsert_other (of_session s.id) (of_session k) (requeue t) (new_event s t event_id)
        outbox (ground arith) (λ x p. ground arith)

  closed_row :
      (outbox : List MeterEvent) (r : UsageSession)
      → Accounted outbox r
      → r.user_id ≡ s.user_id
      → t.billed_cents ≡ ceil_div (t.total_seconds * r.price_per_hour_cents) 3600
      → running_with_id s.id r ≡ true
      → Accounted
          (upsert (of_session s.id) (requeue t) (new_event s t event_id) outbox)
          (close_session t r)
  unfolding close_session new_event
  closed_row outbox r h user cents hit = (
    new_event s t event_id,
    event_of_closed r.id outbox (ground arith) (unbilled r.status outbox r (ground arith) h),
    record { value = refl; user = sym user; whole = refl; cents = cents },
  )

  other_row :
      (outbox : List MeterEvent) (r : UsageSession)
      → Accounted outbox r
      → r.id ≢ s.id
      → Accounted (upsert (of_session s.id) (requeue t) (new_event s t event_id) outbox) r
  other_row outbox r h other = same_entry r.status outbox _ r (event_of_other r.id outbox other) h

-- A row as the transaction finds it.
abbrev Ready : UsageSession → List MeterEvent → UsageSession → Type 0
Ready s outbox r = Accounted outbox r × (Snapshot s r × (r.id ≡ s.id → is_running r.status ≡ true))

unhit :
    (sid : ℕ) (r : UsageSession)
    → (r.id ≡ sid → is_running r.status ≡ true)
    → running_with_id sid r ≡ false
    → r.id ≢ sid
unhit sid r run miss e = let alive = run e in ground arith

closed_rows :
    (s : UsageSession) (now event_id : ℕ) (outbox : List MeterEvent) (rs : List UsageSession)
    → All (Ready s outbox) rs
    → All
        (Accounted (
          upsert
            (of_session s.id)
            (requeue (settle s now))
            (new_event s (settle s now) event_id)
            outbox))
        (update_many (running_with_id s.id) (close_session (settle s now)) rs)
unfolding settle
closed_rows s now event_id outbox rs =
    All-update_many (Ready s outbox) _ (running_with_id s.id) (close_session (settle s now)) rs
      (λ r ready hit.
        let (user, price, start) = ready.1.0 (ground arith) in
        closed_row s (settle s now) event_id outbox r ready.0 user (rw price refl) hit)
      (λ r ready miss.
        other_row s (settle s now) event_id outbox r ready.0 (unhit s.id r ready.1.1 miss))

-- The transaction keeps the two tables in step and the running sessions apart: it may be run on a
-- ledger in any state that the session's row has come to since it was read.
pub close_tx-IsLedger :
    (s : UsageSession) (now event_id : ℕ) (l l' : Ledger)
    → All (Snapshot s) l.sessions
    → IsLedger l
    → close_tx s (settle s now) event_id l ≡ some l'
    → IsLedger l'
unfolding settle close_session requeue new_event
close_tx-IsLedger s now event_id l l' read v e =
    let (found, e') = close_tx-some s (settle s now) event_id l l' e in
    rw e' (record {
      ids = Distinct-update_many (λ r. r.id) _ _ l.sessions (λ r. refl) v.ids;
      events =
          Distinct-upsert (λ m. m.usage_session_id) s.id _ _ l.outbox refl (λ m. refl) v.events;
      accounted = closed_rows s now event_id l.outbox l.sessions (
          All-both _ _ l.sessions v.accounted (
            All-both _ _ l.sessions read
              (Distinct-any s.id (λ r. r.id) (λ r. is_running r.status) l.sessions v.ids found)));
      one_running = OneRunning-update_many s (settle s now) l.sessions v.one_running;
    })
