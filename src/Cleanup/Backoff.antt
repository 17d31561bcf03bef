-- ===== src/Cleanup/Backoff.antt =====
-- The delay before the next attempt at a cleanup.
use final_aldaro.Common.{ℕ, zero, suc, ◌+◌, ◌*◌, ◌/◌, ◌≤◌, ◌<◌, ◌≡◌, refl, arith}
use final_aldaro.Cleanup.Run.{backoff_base, next_cleanup_backoff}

rounded : ℕ → ℕ → ℕ
rounded b random =
    (2 * (b * (9 * 9_007_199_254_740_992 + 2 * random)) + 10 * 9_007_199_254_740_992)
    / (20 * 9_007_199_254_740_992)

-- A delay within a tenth of its base.
abbrev pub Near : ℕ → ℕ → Type 0
Near b r = (9 * b ≤ 10 * r) × (10 * r ≤ 11 * b)

rounded-Near :
    (k random : ℕ)
    → random < 9_007_199_254_740_992
    → Near (10_000 * k) (rounded (10_000 * k) random)
unfolding rounded
rounded-Near k random small =
    let t = k * random in
    let bound : t ≤ k * 9_007_199_254_740_992 = grind arith in (omega arith, omega arith)

-- Every base is a multiple of ten seconds, up to fifteen minutes.
backoff_base_multiple : (n : ℕ) → (k : ℕ) × ((backoff_base n ≡ 10_000 * k) × ((1 ≤ k) × (k ≤ 90)))
unfolding backoff_base
backoff_base_multiple zero = (1, (refl, (omega arith, omega arith)))
backoff_base_multiple (suc zero) = (1, (refl, (omega arith, omega arith)))
backoff_base_multiple (suc (suc zero)) = (3, (refl, (omega arith, omega arith)))
backoff_base_multiple (suc (suc (suc zero))) = (6, (refl, (omega arith, omega arith)))
backoff_base_multiple (suc (suc (suc (suc zero)))) = (12, (refl, (omega arith, omega arith)))
backoff_base_multiple (suc (suc (suc (suc (suc zero))))) = (30, (refl, (omega arith, omega arith)))
backoff_base_multiple (suc (suc (suc (suc (suc (suc zero)))))) =
    (90, (refl, (omega arith, omega arith)))
backoff_base_multiple (suc (suc (suc (suc (suc (suc (suc n))))))) =
    (90, (ground arith, (omega arith, omega arith)))

-- For a draw of `Math.random()` in 53 bits, the delay lies within a tenth of the base of the
-- attempt, and between nine seconds and sixteen and a half minutes.
pub next_cleanup_backoff_near :
    (random n : ℕ)
    → random < 9_007_199_254_740_992
    → (9 * backoff_base n ≤ 10 * next_cleanup_backoff random n)
      × (10 * next_cleanup_backoff random n ≤ 11 * backoff_base n)
      × (9_000 ≤ next_cleanup_backoff random n)
      × (next_cleanup_backoff random n ≤ 990_000)
unfolding next_cleanup_backoff rounded
next_cleanup_backoff_near random n small =
    let (k, (same, (low, high))) = backoff_base_multiple n in
    let (least, most) = rounded-Near k random small in
    rw same (within k (rounded (10_000 * k) random) least most low high)
  where
    within :
        (k r : ℕ)
        → 9 * (10_000 * k) ≤ 10 * r
        → 10 * r ≤ 11 * (10_000 * k)
        → 1 ≤ k
        → k ≤ 90
        → (9 * (10_000 * k) ≤ 10 * r) × (10 * r ≤ 11 * (10_000 * k)) × (9_000 ≤ r) × (r ≤ 990_000)
    within k r a b c d = (a, b, omega (arith, a, c), omega (arith, b, d))
