-- ===== src/Billing/Opening.antt =====
-- The openings of a session (Billing/Start) against the invariant of the billing tables.
use final_aldaro.Common.{
  ℕ, ◌≡◌, refl, sym, ◌∙◌, inl, inr, true, Option, List, [], ◌∷◌, ◌++◌, arith, any, or_else,
  Bool-cases,
}
use final_aldaro.Billing.Rows.{UsageSession, Ledger, running_in}
use final_aldaro.Billing.Catalog.{Catalog, session_price, cold_price}
use final_aldaro.Billing.Start.{
  new_session, create_session, start_usage_session, start_cold_session,
}
use final_aldaro.Billing.Ledger.{IsLedger}
use final_aldaro.Billing.History.{Fresh, create_session-IsLedger}

any-last :
    (workspace : ℕ) (new : UsageSession) (ss : List UsageSession)
    → running_in workspace new ≡ true
    → any (running_in workspace) (ss ++ new ∷ []) ≡ true
any-last workspace new [] h = rw h
any-last workspace new (s ∷ ss) h = ground (arith, any-last workspace new ss h)

-- What `create` leaves, with P2002 ignored: one running session in the workspace.
abbrev Opened : ℕ → Ledger → Type 0
Opened workspace l = IsLedger l × (any (running_in workspace) l.sessions ≡ true)

create_session-Opened :
    (id user workspace gpu now price : ℕ) (l : Ledger)
    → Fresh id l
    → IsLedger l
    → Opened workspace (or_else (create_session (new_session id user workspace gpu now price) l) l)
unfolding create_session new_session
create_session-Opened id user workspace gpu now price l fresh v =
    elim (Bool-cases (any (running_in workspace) l.sessions)) [
      | inl taken ↦ rw taken (v, taken)
      | inr free ↦ rw free (
        create_session-IsLedger id user workspace gpu now price l _ fresh v (rw free refl),
        any-last workspace _ l.sessions (ground arith),
      )
    ]

module _ (id user workspace gpu : ℕ) (locked : Option ℕ) (now : ℕ) (seen : Ledger) (c : Catalog)
    (l : Ledger) where
  -- With a new id, `startUsageSession` keeps the tables in step whatever its guard saw: it opens
  -- no second running session in a workspace.
  pub start_usage_session-IsLedger :
      Fresh id l
      → IsLedger l
      → IsLedger (start_usage_session id user workspace gpu locked now seen c l).0
  unfolding start_usage_session
  start_usage_session-IsLedger fresh v =
      let made =
        create_session-Opened id user workspace gpu now (session_price gpu locked now c).0 l fresh
          v in
      elim (Bool-cases (any (running_in workspace) seen.sessions)) [
        | inl taken ↦ rw taken v
        | inr free ↦ rw free (made.0)
      ]

  -- With a new id, on tables in step, and where the guard saw what the table holds of the
  -- workspace, a session runs in the workspace after `startUsageSession`.
  pub start_usage_session-runs :
      Fresh id l
      → IsLedger l
      → any (running_in workspace) seen.sessions ≡ any (running_in workspace) l.sessions
      → any
          (running_in workspace)
          (start_usage_session id user workspace gpu locked now seen c l).0.sessions
        ≡ true
  unfolding start_usage_session
  start_usage_session-runs fresh v same =
      let made =
        create_session-Opened id user workspace gpu now (session_price gpu locked now c).0 l fresh
          v in
      elim (Bool-cases (any (running_in workspace) seen.sessions)) [
        | inl taken ↦ rw taken (sym same ∙ taken)
        | inr free ↦ rw free (made.1)
      ]

  -- With a new id, the worker's opening of a session for a cold workspace keeps the tables in
  -- step, whatever its guard saw.
  pub start_cold_session-IsLedger :
      Fresh id l
      → IsLedger l
      → IsLedger (start_cold_session id user workspace gpu locked now seen c l)
  unfolding start_cold_session
  start_cold_session-IsLedger fresh v =
      let made =
        create_session-Opened id user workspace gpu now (cold_price gpu locked c) l fresh v in
      elim (Bool-cases (any (running_in workspace) seen.sessions)) [
        | inl taken ↦ rw taken v
        | inr free ↦ rw free (made.0)
      ]
