-- ===== src/Billing/Amounts.antt =====
-- What a session costs: the amounts of `settle`, and the month-to-date estimate that the budget
-- checks make of a running session (`computeUserMtdSpendCents` of
-- apps/api/src/services/workspaceService.ts). The database's columns are 32-bit integers, so every
-- quotient here is exact in a JavaScript number up to its rounding.
use final_aldaro.Common.{
  ℕ, ◌+◌, ◌-◌, ◌*◌, ◌≤◌, ◌<◌, ◌≡◌, refl, inl, inr, Bool, true, false, if◌then◌else◌, Bool-cases,
  update_many, List, [], ◌∷◌, arith, ceil_div, leb, ◌==◌, ◌&&◌, find_many,
}
use final_aldaro.Billing.Rows.{UsageSession, running, ended}
use final_aldaro.Billing.Close.{settle, close_session}

-- Cents of one session towards the month: what was billed, or an estimate from the elapsed
-- milliseconds. `elapsed` seconds are a fraction in the source, so the quotient is by 3600 * 1000; it is
-- exact, where the source multiplies doubles and may come out one cent higher.
unfoldable pub session_spend : ℕ → UsageSession → ℕ
session_spend now s = elim s.status [
  | ended ↦ s.billed_cents
  | running ↦ ceil_div ((now - s.start_time) * s.price_per_hour_cents) 3_600_000
]

unfoldable pub sum_spend : ℕ → List UsageSession → ℕ
sum_spend now [] = 0
sum_spend now (s ∷ ss) = session_spend now s + sum_spend now ss

-- `computeUserMtdSpendCents`
unfoldable pub user_mtd_spend : ℕ → ℕ → ℕ → List UsageSession → ℕ
user_mtd_spend user month_start now ss =
    sum_spend now (find_many (λ s. s.user_id == user && leb month_start s.start_time) ss)

ceil_div-3600 : (a c : ℕ) → ceil_div a 3600 ≡ c → (a ≤ c * 3600) × (c * 3600 < a + 3600)
ceil_div-3600 a c e = omega arith

ceil_div_mono : (a b : ℕ) → a ≤ b → ceil_div a 3600 ≤ ceil_div b 3600
ceil_div_mono a b h = omega arith

mul_mono : (a b c : ℕ) → a ≤ b → a * c ≤ b * c
mul_mono a b c h = grind arith

estimate_le :
    (ms seconds price : ℕ)
    → ms ≤ seconds * 1000
    → ceil_div (ms * price) 3_600_000 ≤ ceil_div (seconds * price) 3600
estimate_le ms seconds price h =
    let cost : ms * price ≤ seconds * 1000 * price = mul_mono ms (seconds * 1000) price h in
    omega arith

-- A bill covers the whole elapsed time in whole seconds and whole cents: the seconds exceed the
-- elapsed time by less than one, and the cents exceed the price of those seconds by less than one.
pub settle-covers :
    (s : UsageSession) (now : ℕ)
    → (now - s.start_time ≤ (settle s now).total_seconds * 1000)
      × ((settle s now).total_seconds * 1000 < now - s.start_time + 1000)
      × ((settle s now).total_seconds * s.price_per_hour_cents ≤ (settle s now).billed_cents * 3600)
      × ((settle s now).billed_cents * 3600
          < (settle s now).total_seconds * s.price_per_hour_cents + 3600)
unfolding settle
settle-covers s now =
    let seconds = ceil_div (now - s.start_time) 1000 in
    let bounds = ceil_div-3600 (seconds * s.price_per_hour_cents) _ refl in
    (omega arith, omega arith, bounds.0, bounds.1)

-- The estimate of a running session at a time never exceeds what closing it at that time bills.
pub estimate-le-settle :
    (s : UsageSession) (now : ℕ)
    → s.status ≡ running
    → session_spend now s ≤ session_spend now (close_session (settle s now) s)
unfolding settle session_spend close_session
estimate-le-settle s now run =
    rw run (estimate_le (now - s.start_time) _ s.price_per_hour_cents (omega arith))

counted-le :
    (counted : Bool) (now : ℕ) (s s' : UsageSession) (ss ss' : List UsageSession)
    → session_spend now s ≤ session_spend now s'
    → sum_spend now ss ≤ sum_spend now ss'
    → sum_spend now (if counted then s ∷ ss else ss)
      ≤ sum_spend now (if counted then s' ∷ ss' else ss')
unfolding sum_spend
counted-le true now s s' ss ss' h k = omega (arith, h, k)
counted-le false now s s' ss ss' h k = k

-- For any choice of running sessions that are closed at a time, the month-to-date spend that the
-- budget checks see at that time is at least what it was before.
pub user_mtd_spend-close :
    (user month_start now : ℕ) (p : UsageSession → Bool) (ss : List UsageSession)
    → ((s : UsageSession) → p s ≡ true → s.status ≡ running)
    → user_mtd_spend user month_start now ss
      ≤ user_mtd_spend user month_start now (update_many p (λ s. close_session (settle s now) s) ss)
unfolding user_mtd_spend close_session
user_mtd_spend-close user month_start now p [] alive = omega arith
user_mtd_spend-close user month_start now p (s ∷ ss) alive =
    let rest = user_mtd_spend-close user month_start now p ss alive in
    let counted = s.user_id == user && leb month_start s.start_time in
    elim (Bool-cases (p s)) [
      | inl hit ↦
          rw hit (counted-le counted now s _ _ _ (estimate-le-settle s now (alive s hit)) rest)
      | inr miss ↦ rw miss (counted-le counted now s s _ _ (omega arith) rest)
    ]
