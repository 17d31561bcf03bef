-- ===== src/Billing/Same.antt =====
-- The API's close of a session (apps/api/src/services/workspaceService.ts) beside the worker's loop over sessions
-- (worker/src/jobs/workspace-cleanup.ts).
use final_aldaro.Common.{
  ℕ, ◌≡◌, refl, ap, inl, inr, Bool, false, Option, none, some, List, [], ◌∷◌, arith, All, All-map,
  find_first, find_many, Bool-cases, or_else,
}
use final_aldaro.Billing.Close.{
  Surroundings, close_each, finalize_usage_sessions, end_usage_session, close_tx, settle,
}
use final_aldaro.Billing.Ledger.{Apart, OneRunning, IsLedger}
use final_aldaro.Billing.Rows.{UsageSession, Ledger, Failure, running_in}

find_many-none {ℓ} :
    {A : Type ℓ} (p : A → Bool) (xs : List A) → All (λ x. p x ≡ false) xs → find_many p xs ≡ []
find_many-none p [] h = refl
find_many-none p (x ∷ xs) h = ground (arith, find_many-none p xs h.1)

abbrev as_list {ℓ} : {A : Type ℓ} → Option A → List A
as_list none = []
as_list (some a) = a ∷ []

-- A workspace has one running session at most, so the first one is all of them.
running-one :
    (workspace : ℕ) (ss : List UsageSession)
    → OneRunning ss
    → find_many (running_in workspace) ss ≡ as_list (find_first (running_in workspace) ss)
running-one workspace [] h = refl
running-one workspace (s ∷ ss) h = elim (Bool-cases (running_in workspace s)) [
  | inr idle ↦ rw idle (running-one workspace ss h.1)
  | inl live ↦
      let others : All (λ t. running_in workspace t ≡ false) ss =
        All-map (Apart s) (λ t. running_in workspace t ≡ false) ss
          (λ t apart. elim (Bool-cases (running_in workspace t)) [
            | inr off ↦ off
            | inl on ↦ absurd (apart (ground arith) (ground arith) (ground arith))
          ])
          h.0 in
      rw live (
        ap (λ (rest : List UsageSession). s ∷ rest)
          (find_many-none (running_in workspace) ss others))
]

-- On billing tables that are in step, the API's close of a workspace's first running session and
-- the worker's loop over all of them leave the same ledger and throw the same error.
pub end_usage_session-finalize_usage_sessions :
    (w : Surroundings) (workspace : ℕ) (l : Ledger)
    → IsLedger l
    → end_usage_session w workspace l ≡ finalize_usage_sessions w workspace l
unfolding end_usage_session finalize_usage_sessions close_each
end_usage_session-finalize_usage_sessions w workspace l v =
    rw (running-one workspace l.sessions v.one_running)
      (by_first (find_first (running_in workspace) l.sessions))
  where
    by_first :
        (first : Option UsageSession)
        → elim first as (λ _. Ledger × Option Failure) [
          | none ↦ (l, none)
          | some s ↦ elim (w.fault s) as (λ _. Ledger × Option Failure) [
            | none ↦ (or_else (close_tx s (settle s (w.clock s)) (w.event_id s) l) l, none)
            | some f ↦ (l, some f)
          ]
        ]
          ≡ close_each w (as_list first) l
    by_first none = refl
    by_first (some s) = ground arith
