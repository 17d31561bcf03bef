-- ===== src/Spot/Price.antt =====
-- The spot price of a GPU type: `updateSpotPrices` of worker/src/jobs/spot-pricing.ts, up to its writes.
-- A multiplier is an exact fraction where the source computes in doubles, and a clock that runs
-- before the last rental gives an idle time of 0.
use final_aldaro.Common.{
  ℕ, ◌+◌, ◌-◌, ◌*◌, ◌/◌, min, max, Bool, Option, none, some, if◌then◌else◌, ltb, leb,
}

pub data Demand : Type 0 where
  normal surge high_demand discount : Demand

pub record Tier : Type 0 where
  pub num : ℕ
  pub den : ℕ
  pub demand : Demand

-- `ratio`: the available workspaces over the target, or 1 where there is no target.
abbrev pub ratio_num : ℕ → ℕ → ℕ
ratio_num available target = if ltb 0 target then available else 1

abbrev pub ratio_den : ℕ → ℕ
ratio_den target = if ltb 0 target then target else 1

-- With `r = a / t`, the surge `1.25 + 0.25 * (1 - r / 0.25)` and the high demand
-- `1.0 + 0.25 * (1 - (r - 0.25) / 0.25)` are both `1.5 - r`, that is `(3 * t - 2 * a) / (2 * t)`.
unfoldable pub scarcity : ℕ → ℕ → Tier
scarcity a t =
    if ltb (4 * a) t
    then record { num = 3 * t - 2 * a; den = 2 * t; demand = surge }
    else if ltb (2 * a) t
    then record { num = 3 * t - 2 * a; den = 2 * t; demand = high_demand }
    else record { num = 1; den = 1; demand = normal }

-- `Math.max(0.85, 1.0 - 0.05 * Math.min(3, Math.floor((hours - 12) / 6)))`, for more than 12 hours.
unfoldable pub idle_tier : ℕ → Tier
idle_tier idle_ms = record {
  num = max 85 (100 - 5 * min 3 ((idle_ms - 43_200_000) / 21_600_000));
  den = 100;
  demand = discount;
}

-- The tier of a saturated pool, given its last rental.
unfoldable pub saturated : Option ℕ → ℕ → Tier → Tier
saturated none now tier = record { num = 90; den = 100; demand = discount }
saturated (some last) now tier =
    if ltb 43_200_000 (now - last) then idle_tier (now - last) else tier

unfoldable pub tier_of : (available target : ℕ) → Option ℕ → ℕ → Tier
tier_of available target last now =
    let a = ratio_num available target in
    let t = ratio_den target in if leb t a then saturated last now (scarcity a t) else scarcity a t

-- `Math.round(n / d)`
unfoldable pub round_div : ℕ → ℕ → ℕ
round_div n d = (2 * n + d) / (2 * d)

abbrev pub floor_cents : ℕ
floor_cents = 40

-- An `A100_80GB` has the higher ceiling.
abbrev pub ceiling_cents : Bool → ℕ
ceiling_cents is_a100 = if is_a100 then 500 else 200

unfoldable pub spot_price_cents : Bool → ℕ → Tier → ℕ
spot_price_cents is_a100 base tier =
    min (ceiling_cents is_a100) (max floor_cents (round_div (base * tier.num) tier.den))

-- `Math.round(multiplier * 100)`: the column in hundredths.
unfoldable pub hundredths : Tier → ℕ
hundredths tier = round_div (100 * tier.num) tier.den
