-- ===== src/Billing/History.antt =====
-- The billing tables under any interleaving of the services that write them: the API and the worker
-- open sessions, read them, close what they have read at some later time, and the worker emits
-- meter events. `close_tx` is the transaction of `endUsageSession`, of `finalizeUsageSessions` and of
-- `terminateWorkspace`.
use mathlib.Core.Bool.{false≢true}
use final_aldaro.Common.{
  ℕ, ◌≡◌, refl, sym, ◌≢◌, ◌∙◌, inl, inr, Bool, true, false, none, some, List, [], ◌∷◌, ◌++◌, arith,
  All, All-map, All-append, All-update_many, All-find_first, Distinct, Distinct-append, find_first,
  any, update_many, Bool-cases, ◌==◌,
}
use final_aldaro.Billing.Rows.{
  UsageSession, MeterEvent, Ledger, of_session, running_with_id, running_in,
}
use final_aldaro.Billing.Close.{Totals, settle, close_session, close_tx}
use final_aldaro.Billing.Start.{new_session, create_session}
use final_aldaro.Billing.Metering.{MeterWorld, process_meter_event, stamp}
use final_aldaro.Billing.Ledger.{
  Accounted, Apart, OneRunning, IsLedger, Snapshot, close_tx-some, close_tx-IsLedger,
}
use final_aldaro.Billing.Emission.{Attempted, process_meter_event-Attempted, Attempted-IsLedger}

-- The tables, and the rows that callers hold from their queries.
pub record System : Type 0 where
  pub ledger : Ledger
  pub held : List UsageSession

-- A new id is one that no table uses.
pub record Fresh (id : ℕ) (l : Ledger) : Type 0 where
  pub unused : All (λ (s : UsageSession). s.id ≢ id) l.sessions
  pub unmetered : find_first (of_session id) l.outbox ≡ none

pub data Step (y : System) : System → Type 0 where
  open_session :
      (id user workspace gpu now price : ℕ) (l : Ledger)
      → Fresh id y.ledger
      → create_session (new_session id user workspace gpu now price) y.ledger ≡ some l
      → Step y (record y { ledger = l })
  read :
      (p : UsageSession → Bool) (s : UsageSession)
      → find_first p y.ledger.sessions ≡ some s
      → Step y (record y { held = s ∷ y.held })
  close :
      (p : UsageSession → Bool) (s : UsageSession) (now event_id : ℕ) (l : Ledger)
      → find_first p y.held ≡ some s
      → close_tx s (settle s now) event_id y.ledger ≡ some l
      → Step y (record y { ledger = l })
  emit :
      (w : MeterWorld) (e : MeterEvent) (l : Ledger)
      → (process_meter_event w e y.ledger).0 ≡ some l
      → Step y (record y { ledger = l })

pub data Reach (y : System) : System → Type 0 where
  here : Reach y y
  next : {z u : System} → Reach y z → Step z u → Reach y u

-- The row that `s` was read from is in the table, with the columns that a close reads.
abbrev pub Holds : List UsageSession → UsageSession → Type 0
Holds rs s = All (Snapshot s) rs × (any (λ r. r.id == s.id) rs ≡ true)

-- The invariant: the tables are in step, and what callers hold is still true of the rows.
pub record IsSound (y : System) : Type 0 where
  pub tables : IsLedger y.ledger
  pub holds : All (Holds y.ledger.sessions) y.held

-- Opening a session.
OneRunning-append :
    (new : UsageSession) (ss : List UsageSession)
    → any (running_in new.workspace_id) ss ≡ false
    → OneRunning ss
    → OneRunning (ss ++ new ∷ [])
OneRunning-append new [] h o = (tt, tt)
OneRunning-append new (s ∷ ss) h o = (
  All-append (Apart s) ss (new ∷ []) o.0 (λ run _ same. ground arith, tt),
  OneRunning-append new ss (ground arith) o.1,
)

pub create_session-some :
    (new : UsageSession) (l l' : Ledger)
    → create_session new l ≡ some l'
    → (any (running_in new.workspace_id) l.sessions ≡ false)
      × (l' ≡ record l { sessions = l.sessions ++ new ∷ [] })
unfolding create_session
create_session-some new l l' e = ground arith

pub create_session-IsLedger :
    (id user workspace gpu now price : ℕ) (l l' : Ledger)
    → Fresh id l
    → IsLedger l
    → create_session (new_session id user workspace gpu now price) l ≡ some l'
    → IsLedger l'
unfolding new_session
create_session-IsLedger id user workspace gpu now price l l' fresh v e =
    let (alone, same) = create_session-some (new_session id user workspace gpu now price) l l' e in
    rw same (record {
      ids = Distinct-append (λ s. s.id) l.sessions _ fresh.unused v.ids;
      events = v.events;
      accounted = All-append (Accounted l.outbox) l.sessions _ v.accounted (fresh.unmetered, tt);
      one_running = OneRunning-append _ l.sessions alone v.one_running;
    })

-- Reading a row.
pub Snapshot-refl :
    (p : UsageSession → Bool) (rs : List UsageSession) (s : UsageSession)
    → Distinct (λ r. r.id) rs
    → find_first p rs ≡ some s
    → All (Snapshot s) rs
Snapshot-refl p [] s d e = cc
Snapshot-refl p (r ∷ rs) s d e = elim (Bool-cases (p r)) [
  | inl hit ↦
      let same : r ≡ s = ground arith in
      (λ _. ground arith, All-map _ (Snapshot s) rs (λ x ne eq. absurd (ne (ground arith))) d.0)
  | inr miss ↦
      let later : find_first p rs ≡ some s = ground arith in
      let other : s.id ≢ r.id = All-find_first _ p rs s d.0 later in
      (λ eq. absurd (other (sym eq)), Snapshot-refl p rs s d.1 later)
]

any-find_first :
    (p : UsageSession → Bool) (rs : List UsageSession) (s : UsageSession)
    → find_first p rs ≡ some s
    → any (λ r. r.id == s.id) rs ≡ true
any-find_first p [] s e = cc
any-find_first p (r ∷ rs) s e = ground (arith, any-find_first p rs s)

-- A change of rows that keeps the columns that a close reads.
record Steady (f : UsageSession → UsageSession) : Type 0 where
  id : (s : UsageSession) → (f s).id ≡ s.id
  user : (s : UsageSession) → (f s).user_id ≡ s.user_id
  price : (s : UsageSession) → (f s).price_per_hour_cents ≡ s.price_per_hour_cents
  start : (s : UsageSession) → (f s).start_time ≡ s.start_time

any-update_many :
    (k : ℕ) (p : UsageSession → Bool) (f : UsageSession → UsageSession) (rs : List UsageSession)
    → Steady f
    → any (λ r. r.id == k) (update_many p f rs) ≡ any (λ r. r.id == k) rs
any-update_many k p f [] st = refl
any-update_many k p f (r ∷ rs) st = ground (arith, st.id r, any-update_many k p f rs st)

Holds-update_many :
    (p : UsageSession → Bool) (f : UsageSession → UsageSession) (rs : List UsageSession)
    → Steady f
    → (s : UsageSession) → Holds rs s
    → Holds (update_many p f rs) s
Holds-update_many p f rs st s (snap, there) = (
  All-update_many (Snapshot s) (Snapshot s) p f rs
      (λ r h _ e.
        let (u, pr, t) = h (sym (st.id r) ∙ e) in (st.user r ∙ u, st.price r ∙ pr, st.start r ∙ t))
      (λ r h _. h) snap,
  any-update_many s.id p f rs st ∙ there,
)

any-unused :
    (k : ℕ) (rs : List UsageSession) → All (λ r. r.id ≢ k) rs → any (λ r. r.id == k) rs ≡ false
any-unused k [] h = refl
any-unused k (r ∷ rs) h = ground (arith, any-unused k rs h.1)

any-append :
    (k : ℕ) (rs : List UsageSession) (new : UsageSession)
    → any (λ r. r.id == k) rs ≡ true
    → any (λ r. r.id == k) (rs ++ new ∷ []) ≡ true
any-append k [] new h = cc
any-append k (r ∷ rs) new h = ground (arith, any-append k rs new)

Holds-append :
    (rs : List UsageSession) (new s : UsageSession)
    → All (λ r. r.id ≢ new.id) rs
    → Holds rs s
    → Holds (rs ++ new ∷ []) s
Holds-append rs new s unused (snap, there) = (
  All-append (Snapshot s) rs (new ∷ []) snap
      (λ same. absurd (false≢true (sym (any-unused new.id rs unused) ∙ rw same there)), tt),
  any-append s.id rs new there,
)

close_session-Steady : (t : Totals) → Steady (close_session t)
unfolding close_session
close_session-Steady t = record {
  id = λ s. refl;
  user = λ s. refl;
  price = λ s. refl;
  start = λ s. refl;
}

stamp-Steady : (i : ℕ) → Steady (stamp i)
stamp-Steady i = record { id = λ s. refl; user = λ s. refl; price = λ s. refl; start = λ s. refl }

Attempted-Holds :
    (w : MeterWorld) (e : MeterEvent) (l l' : Ledger) (s : UsageSession)
    → Attempted w e l l'
    → Holds l.sessions s
    → Holds l'.sessions s
Attempted-Holds w e l l' s (inl (i, same)) h =
    rw same (
      Holds-update_many (λ r. r.id == e.usage_session_id) (stamp i) l.sessions (stamp-Steady i) s h)
Attempted-Holds w e l l' s (inr (f, same)) h = rw same h

opened-Holds :
    (id user workspace gpu now price : ℕ) (l l' : Ledger) (s : UsageSession)
    → Fresh id l
    → l' ≡ record l { sessions = l.sessions ++ new_session id user workspace gpu now price ∷ [] }
    → Holds l.sessions s
    → Holds l'.sessions s
unfolding new_session
opened-Holds id user workspace gpu now price l l' s fresh same h =
    rw same (Holds-append l.sessions _ s fresh.unused h)

pub closed-Holds :
    (r : UsageSession) (t : Totals) (event_id : ℕ) (l l' : Ledger) (s : UsageSession)
    → close_tx r t event_id l ≡ some l'
    → Holds l.sessions s
    → Holds l'.sessions s
closed-Holds r t event_id l l' s e h = rw ((close_tx-some r t event_id l l' e).1) (
    Holds-update_many (running_with_id r.id) (close_session t) l.sessions (close_session-Steady t) s
      h)

-- Every step of every service keeps the invariant.
pub Step-IsSound : {y z : System} → Step y z → IsSound y → IsSound z
Step-IsSound {y} (open_session id user workspace gpu now price l fresh e) v =
    let (_, same) =
      create_session-some (new_session id user workspace gpu now price) y.ledger l e in
    record {
      tables = create_session-IsLedger id user workspace gpu now price y.ledger l fresh v.tables e;
      holds =
          All-map _ _ y.held
            (λ s. opened-Holds id user workspace gpu now price y.ledger l s fresh same) v.holds;
    }
Step-IsSound {y} (read p s e) v = record {
  tables = v.tables;
  holds = (
    (Snapshot-refl p y.ledger.sessions s v.tables.ids e, any-find_first p y.ledger.sessions s e),
    v.holds,
  );
}
Step-IsSound {y} (close p s now event_id l found e) v =
    let (snap, _) = All-find_first (Holds y.ledger.sessions) p y.held s v.holds found in
    record {
      tables = close_tx-IsLedger s now event_id y.ledger l snap v.tables e;
      holds =
          All-map _ _ y.held (λ r. closed-Holds s (settle s now) event_id y.ledger l r e) v.holds;
    }
Step-IsSound {y} (emit w e l h) v =
    let attempt = process_meter_event-Attempted w e y.ledger l h in
    record {
      tables = Attempted-IsLedger w e y.ledger l v.tables attempt;
      holds = All-map _ _ y.held (λ s. Attempted-Holds w e y.ledger l s attempt) v.holds;
    }

-- In every state that any interleaving of opening, reading, closing and emitting can reach from a
-- sound state, the two tables are in step: ids are distinct, every closed session has its outbox
-- entry with the billed seconds and user, no running session has one, and no two running sessions
-- share a workspace; and what callers hold of rows is still true of them.
pub Reach-IsSound : {y z : System} → Reach y z → IsSound y → IsSound z
Reach-IsSound here v = v
Reach-IsSound (next r st) v = Step-IsSound st (Reach-IsSound r v)
