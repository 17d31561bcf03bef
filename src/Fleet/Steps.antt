-- ===== src/Fleet/Steps.antt =====
-- What the building of a machine keeps: `build` of Fleet.Build, statement by statement.
use final_aldaro.Common.{
  ℕ, inl, inr, Bool, true, false, Option, none, some, List, [], ◌∷◌, All, Option-cases,
}
use final_aldaro.Billing.Rows.{Failure}
use final_aldaro.Fleet.Build.{Step, run_steps, give_up, or_give_up, build_or_defer}
use final_aldaro.Fleet.Claim.{roll_back_gpu}
use final_aldaro.Fleet.Rows.{Fleet, Hands}

-- `P` holds while the machine is built, and `Q` afterwards, on every path.
module _ {ℓ κ} (P : Fleet → Type ℓ) (Q : Fleet → Type κ) where
  run_steps-kept :
      (h : Hands) (steps : List Step) (fl : Fleet)
      → All (λ s. (fl : Fleet) → P fl → P (s.change fl)) steps
      → P fl
      → P (run_steps h steps fl).0
  unfolding run_steps
  run_steps-kept h [] fl safe ok = ok
  run_steps-kept h (s ∷ ss) fl safe ok = elim (Option-cases (h.fault s.point)) [
    | inl clear ↦ rw (clear, run_steps) (run_steps-kept h ss (s.change fl) safe.1 (safe.0 fl ok))
    | inr (f, bad) ↦ rw (bad, run_steps) ok
  ]

  or_give_up-kept :
      (h : Hands) (w gpu : ℕ) (x : Fleet × Option Failure)
      → ((fl : Fleet) → P fl → Q fl)
      → ((f : Failure) (fl : Fleet) → P fl → Q (give_up h w gpu f fl))
      → P x.0
      → Q (or_give_up h w gpu x)
  unfolding or_give_up
  or_give_up-kept h w gpu (fl, none) built given ok = built fl ok
  or_give_up-kept h w gpu (fl, some f) built given ok = given f fl ok

  pub build_or_defer-kept :
      (h : Hands) (steps : List Step) (defer : Fleet → Fleet) (w gpu : ℕ)
      → All (λ s. (fl : Fleet) → P fl → P (s.change fl)) steps
      → ((fl : Fleet) → P fl → Q fl)
      → ((f : Failure) (fl : Fleet) → P fl → Q (give_up h w gpu f fl))
      → ((fl : Fleet) → P fl → Q (defer (roll_back_gpu w gpu fl)))
      → (x : Fleet × Bool) → P x.0
      → Q (build_or_defer h steps defer w gpu x)
  unfolding build_or_defer
  build_or_defer-kept h steps defer w gpu safe built given deferred (fl, true) ok =
      or_give_up-kept h w gpu (run_steps h steps fl) built given (run_steps-kept h steps fl safe ok)
  build_or_defer-kept h steps defer w gpu safe built given deferred (fl, false) ok = deferred fl ok
