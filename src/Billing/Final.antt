-- ===== src/Billing/Final.antt =====
-- What a closed session was billed, under the later steps of every service.
use final_aldaro.Common.{
  ℕ, ◌≡◌, refl, ap, ◌∙◌, inl, inr, Bool, true, false, Option, some, List, [], ◌∷◌, ◌++◌, arith,
  find_first, update_many, ◌==◌, if◌then◌else◌,
}
use final_aldaro.Billing.Rows.{UsageSession, MeterEvent, Ledger, ended, running_with_id}
use final_aldaro.Billing.Close.{Totals, settle, close_session}
use final_aldaro.Billing.Start.{new_session}
use final_aldaro.Billing.Metering.{MeterWorld, stamp}
use final_aldaro.Billing.Ledger.{close_tx-some}
use final_aldaro.Billing.Emission.{process_meter_event-Attempted, Attempted}
use final_aldaro.Billing.History.{
  System, Step, open_session, read, close, emit, Reach, here, next, create_session-some,
}

abbrev pub with_id : ℕ → UsageSession → Bool
with_id k s = s.id == k

-- `s'` is the closed session `s` with its bill unchanged.
pub record SameBill (s s' : UsageSession) : Type 0 where
  pub closed : s'.status ≡ ended
  pub seconds : s'.billed_seconds ≡ s.billed_seconds
  pub cents : s'.billed_cents ≡ s.billed_cents
  pub end : s'.end_time ≡ s.end_time

abbrev pub StillBilled : ℕ → UsageSession → Ledger → Type 0
StillBilled k s l =
    (s' : UsageSession) × (find_first (with_id k) l.sessions ≡ some s') × SameBill s s'

abbrev bill_of : ℕ → Ledger → Option UsageSession
bill_of k l = find_first (with_id k) l.sessions

find_first-append :
    (k : ℕ) (rs : List UsageSession) (new s : UsageSession)
    → find_first (with_id k) rs ≡ some s
    → find_first (with_id k) (rs ++ new ∷ []) ≡ some s
find_first-append k [] new s h = cc
find_first-append k (r ∷ rs) new s h = ground (arith, find_first-append k rs new s)

module _ (p : UsageSession → Bool) (f : UsageSession → UsageSession) where
  find_first-update_many :
      (k : ℕ) (rs : List UsageSession) (s : UsageSession)
      → ((r : UsageSession) → (f r).id ≡ r.id)
      → find_first (with_id k) rs ≡ some s
      → find_first (with_id k) (update_many p f rs) ≡ some (if p s then f s else s)
  find_first-update_many k [] s same h = cc
  find_first-update_many k (r ∷ rs) s same h =
      ground (arith, same r, find_first-update_many k rs s same)

close_session_id : (t : Totals) (s : UsageSession) → (close_session t s).id ≡ s.id
unfolding close_session
close_session_id t s = refl

close-SameBill :
    (sid : ℕ) (t : Totals) (s s' : UsageSession)
    → SameBill s s'
    → SameBill s (if running_with_id sid s' then close_session t s' else s')
close-SameBill sid t s s' b =
    let skipped : running_with_id sid s' ≡ false = ground (arith, b.closed) in rw skipped b

stamp-SameBill :
    (q : Bool) (i : ℕ) (s s' : UsageSession)
    → SameBill s s'
    → SameBill s (if q then stamp i s' else s')
stamp-SameBill true i s s' b = record {
  closed = b.closed;
  seconds = b.seconds;
  cents = b.cents;
  end = b.end;
}
stamp-SameBill false i s s' b = b

Attempted-StillBilled :
    (w : MeterWorld) (e : MeterEvent) (k : ℕ) (s : UsageSession) (l l' : Ledger)
    → Attempted w e l l'
    → StillBilled k s l
    → StillBilled k s l'
Attempted-StillBilled w e k s l l' (inl (i, same)) (s', found, b) =
    let q : UsageSession → Bool = λ r. r.id == e.usage_session_id in
    (
      if q s' then stamp i s' else s',
      ap (bill_of k) same ∙ find_first-update_many q (stamp i) k l.sessions s' (λ r. refl) found,
      stamp-SameBill (q s') i s s' b,
    )
Attempted-StillBilled w e k s l l' (inr (f, same)) (s', found, b) =
    (s', ap (bill_of k) same ∙ found, b)

-- One step leaves a closed session's bill as it is.
pub Step-StillBilled :
    {y z : System} (k : ℕ) (s : UsageSession)
    → Step y z
    → StillBilled k s y.ledger
    → StillBilled k s z.ledger
Step-StillBilled {y} k s (open_session id user workspace gpu now price l fresh e) (s', found, b) =
    let (_, same) =
      create_session-some (new_session id user workspace gpu now price) y.ledger l e in
    (s', ap (bill_of k) same ∙ find_first-append k y.ledger.sessions _ s' found, b)
Step-StillBilled k s (read p r e) h = h
Step-StillBilled {y} k s (close p r now event_id l held e) (s', found, b) =
    let (_, same) = close_tx-some r (settle r now) event_id y.ledger l e in
    (
      if running_with_id r.id s' then close_session (settle r now) s' else s',
      ap (bill_of k) same
          ∙ find_first-update_many (running_with_id r.id) (close_session (settle r now)) k
              y.ledger.sessions s' (close_session_id (settle r now)) found,
      close-SameBill r.id (settle r now) s s' b,
    )
Step-StillBilled {y} k s (emit w e l h) before =
    Attempted-StillBilled w e k s y.ledger l (process_meter_event-Attempted w e y.ledger l h) before

Reach-StillBilled :
    {y z : System} (k : ℕ) (s : UsageSession)
    → Reach y z
    → StillBilled k s y.ledger
    → StillBilled k s z.ledger
Reach-StillBilled k s here h = h
Reach-StillBilled k s (next r st) h = Step-StillBilled k s st (Reach-StillBilled k s r h)

-- A session that is closed stays in the table, closed, with the seconds, the cents and the end
-- that it was billed, whatever the services do afterwards and in whatever order.
pub closed_is_final :
    {y z : System} (k : ℕ) (s : UsageSession)
    → find_first (with_id k) y.ledger.sessions ≡ some s
    → s.status ≡ ended
    → Reach y z
    → StillBilled k s z.ledger
closed_is_final k s found closed r =
    Reach-StillBilled k s r
      (s, found, record { closed = closed; seconds = refl; cents = refl; end = refl })
