-- ===== src/Billing/Worker.antt =====
-- The worker's close of a workspace: the loop of `finalizeUsageSessions` (workspace-cleanup.ts of
-- worker/src/jobs) against the invariant of the billing tables.
use mathlib.Core.Bool.{false≢true}
use final_aldaro.Common.{
  some, ◌≢◌, Distinct, ℕ, ◌≡◌, refl, sym, inl, inr, true, false, none, List, [], ◌∷◌, arith, All,
  All-map, All-both, any-none, All-find_many, All-update_many, find_many, any, or_else, Bool-cases,
  Option-cases, ◌==◌,
}
use final_aldaro.Billing.Rows.{Failure, UsageSession, Ledger, running_with_id, running_in}
use final_aldaro.Billing.Close.{
  settle, close_session, close_tx, close_each, finalize_usage_sessions, Surroundings,
}
use final_aldaro.Billing.Ledger.{IsLedger, Snapshot, close_tx-IsLedger}
use final_aldaro.Billing.History.{Holds, closed-Holds}

-- Every running session of the workspace is among those that are still to be closed.
abbrev Remaining : ℕ → List UsageSession → UsageSession → Type 0
Remaining workspace ss r = running_in workspace r ≡ true → any (λ s. s.id == r.id) ss ≡ true

-- The state after one turn of the loop.
abbrev after_close : Surroundings → UsageSession → Ledger → Ledger
after_close w s l = or_else (close_tx s (settle s (w.clock s)) (w.event_id s) l) l

unremaining :
    (workspace : ℕ) (r : UsageSession) → Remaining workspace [] r → running_in workspace r ≡ false
unremaining workspace r h = elim (Bool-cases (running_in workspace r)) [
  | inl run ↦ absurd (false≢true (h run))
  | inr idle ↦ idle
]

after_close-IsLedger :
    (w : Surroundings) (s : UsageSession) (l : Ledger)
    → All (Snapshot s) l.sessions
    → IsLedger l
    → IsLedger (after_close w s l)
after_close-IsLedger w s l snap v =
    elim (Option-cases (close_tx s (settle s (w.clock s)) (w.event_id s) l)) [
      | inl gone ↦ rw gone v
      | inr (l', done) ↦ rw done (close_tx-IsLedger s (w.clock s) (w.event_id s) l l' snap v done)
    ]

after_close-Holds :
    (w : Surroundings) (s : UsageSession) (l : Ledger) (r : UsageSession)
    → Holds l.sessions r
    → Holds (after_close w s l).sessions r
after_close-Holds w s l r h =
    elim (Option-cases (close_tx s (settle s (w.clock s)) (w.event_id s) l)) [
      | inl gone ↦ rw gone h
      | inr (l', done) ↦
          rw done (closed-Holds s (settle s (w.clock s)) (w.event_id s) l l' r done h)
    ]

not_this :
    (workspace : ℕ) (s : UsageSession) (ss : List UsageSession) (r : UsageSession)
    → Remaining workspace (s ∷ ss) r
    → running_with_id s.id r ≡ false
    → Remaining workspace ss r
not_this workspace s ss r h miss run = let here = h run in ground arith

after_close-Remaining :
    (w : Surroundings) (workspace : ℕ) (s : UsageSession) (ss : List UsageSession) (l : Ledger)
    → All (Remaining workspace (s ∷ ss)) l.sessions
    → All (Remaining workspace ss) (after_close w s l).sessions
unfolding close_tx close_session
after_close-Remaining w workspace s ss l h =
    elim (Bool-cases (any (running_with_id s.id) l.sessions)) [
      | inl hit ↦ rw hit (
          All-update_many (Remaining workspace (s ∷ ss)) (Remaining workspace ss)
            (running_with_id s.id) (close_session (settle s (w.clock s))) l.sessions
            (λ r _ _ run. ground arith) (λ r. not_this workspace s ss r) h)
      | inr miss ↦ rw miss (
          All-map _ (Remaining workspace ss) l.sessions
            (λ r both. not_this workspace s ss r both.0 both.1)
            (All-both (Remaining workspace (s ∷ ss)) (λ r. running_with_id s.id r ≡ false)
              l.sessions h (any-none (running_with_id s.id) l.sessions miss)))
    ]

-- What the loop over the sessions that were read leaves, where it comes to its end.
close_each-done :
    (w : Surroundings) (workspace : ℕ) (ss : List UsageSession) (l : Ledger)
    → All (Holds l.sessions) ss
    → All (Remaining workspace ss) l.sessions
    → IsLedger l
    → (close_each w ss l).1 ≡ none
    → All (λ r. running_in workspace r ≡ false) (close_each w ss l).0.sessions
      × IsLedger (close_each w ss l).0
unfolding close_each
close_each-done w workspace [] l holds rem v fine =
    (All-map _ _ l.sessions (λ r h. unremaining workspace r h) rem, v)
close_each-done w workspace (s ∷ ss) l holds rem v fine = elim (Option-cases (w.fault s)) [
  | inl clear ↦
      rw (clear, close_each)
        (close_each-done w workspace ss (after_close w s l)
          (All-map _ _ ss (λ r. after_close-Holds w s l r) holds.1)
          (after_close-Remaining w workspace s ss l rem) (after_close-IsLedger w s l holds.0.0 v)
          (rw (clear, close_each) at fine))
  | inr (f, bad) ↦ absurd (none_thrown f (rw (bad, close_each) at fine))
]
  where
    none_thrown : (f : Failure) → some f ≡ none → ⊥
    none_thrown f e = cc

close_each-returns :
    (w : Surroundings) (ss : List UsageSession) (l : Ledger)
    → ((s : UsageSession) → w.fault s ≡ none)
    → (close_each w ss l).1 ≡ none
unfolding close_each
close_each-returns w [] l clear = refl
close_each-returns w (s ∷ ss) l clear =
    rw (clear s, close_each) (close_each-returns w ss (after_close w s l) clear)

Holds-cons :
    (x y : UsageSession) (rs : List UsageSession) → y.id ≢ x.id → Holds rs y → Holds (x ∷ rs) y
Holds-cons x y rs other (snap, there) = ((λ same. absurd (other (sym same)), snap), ground arith)

-- A row that was read from the table is held by it.
Holds-self : (rs : List UsageSession) → Distinct (λ r. r.id) rs → All (Holds rs) rs
Holds-self [] d = tt
Holds-self (x ∷ rs) d = (
  (
    (λ _. (refl, refl, refl), All-map _ (Snapshot x) rs (λ y ne same. absurd (ne same)) d.0),
    ground arith,
  ),
  All-map _ (Holds (x ∷ rs)) rs (λ y h. Holds-cons x y rs h.0 h.1)
      (All-both _ _ rs d.0 (Holds-self rs d.1)),
)

Remaining-self :
    (workspace : ℕ) (rs : List UsageSession)
    → All (Remaining workspace (find_many (running_in workspace) rs)) rs
Remaining-self workspace [] = tt
Remaining-self workspace (x ∷ rs) = (
  λ live. ground arith,
  All-map (Remaining workspace (find_many (running_in workspace) rs)) _ rs
      (λ r h live. let old = h live in ground arith) (Remaining-self workspace rs),
)

-- Where the worker's close comes to its end, it leaves no running session in the workspace, and
-- keeps the tables in step.
pub finalize_usage_sessions-done :
    (w : Surroundings) (workspace : ℕ) (l : Ledger)
    → IsLedger l
    → (finalize_usage_sessions w workspace l).1 ≡ none
    → All (λ r. running_in workspace r ≡ false) (finalize_usage_sessions w workspace l).0.sessions
      × IsLedger (finalize_usage_sessions w workspace l).0
unfolding finalize_usage_sessions
finalize_usage_sessions-done w workspace l v fine =
    close_each-done w workspace (find_many (running_in workspace) l.sessions) l
      (All-find_many _ (running_in workspace) l.sessions (Holds-self l.sessions v.ids))
      (Remaining-self workspace l.sessions) v fine

-- When the database takes every transaction, and on tables that are in step,
-- `finalizeUsageSessions` returns without an error, leaves no running session in the workspace,
-- and keeps the tables in step.
pub finalize_usage_sessions-closes :
    (w : Surroundings) (workspace : ℕ) (l : Ledger)
    → ((s : UsageSession) → w.fault s ≡ none)
    → IsLedger l
    → ((finalize_usage_sessions w workspace l).1 ≡ none)
      × All (λ r. running_in workspace r ≡ false) (finalize_usage_sessions w workspace l).0.sessions
      × IsLedger (finalize_usage_sessions w workspace l).0
unfolding finalize_usage_sessions
finalize_usage_sessions-closes w workspace l clear v =
    let fine = close_each-returns w (find_many (running_in workspace) l.sessions) l clear in
    let (idle, tables) = finalize_usage_sessions-done w workspace l v fine in (fine, idle, tables)
