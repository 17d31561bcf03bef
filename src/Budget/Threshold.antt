-- ===== src/Budget/Threshold.antt =====
-- From which spend on worker/src/jobs/budget-monitor.ts stops an account's workspaces.
use final_aldaro.Common.{ℕ, ◌+◌, ◌*◌, ◌≤◌, ◌<◌, ◌≡◌, ◌↔◌, true, leb, arith}
use native.Mathlib.Nat.{le-div_iff_mul-le}
use final_aldaro.Spot.Price.{round_div}
use final_aldaro.Budget.Rows.{Account}
use final_aldaro.Budget.Notices.{percent}
use final_aldaro.Budget.Monitor.{verdict, terminate}

percent_full :
    (spend limit : ℕ)
    → 0 < limit
    → (100 ≤ percent spend limit) ↔ (100 * (2 * limit) ≤ 2 * (100 * spend) + limit)
unfolding percent round_div
percent_full spend limit pos = le-div_iff_mul-le (omega (arith, pos))

full_reached :
    (spend limit : ℕ) → 0 < limit → leb 100 (percent spend limit) ≡ true → 199 * limit ≤ 200 * spend
full_reached spend limit pos e = omega (arith, (percent_full spend limit pos).0 (ground (arith, e)))

full_reaches :
    (spend limit : ℕ) → 0 < limit → 199 * limit ≤ 200 * spend → leb 100 (percent spend limit) ≡ true
full_reaches spend limit pos h =
    let full = (percent_full spend limit pos).1 (omega (arith, h)) in ground (arith, full)

-- For a positive limit, the verdict is to terminate exactly when the account's action is
-- AUTO_TERMINATE and the spend is 99.5% of the limit or more.
pub verdict-terminate :
    (now : ℕ) (a : Account) (spend limit : ℕ)
    → 0 < limit
    → (verdict now a spend limit ≡ terminate)
      ↔ ((a.auto_terminate ≡ true) × (199 * limit ≤ 200 * spend))
unfolding verdict
verdict-terminate now a spend limit pos =
    ground (arith, full_reached spend limit pos, full_reaches spend limit pos)
