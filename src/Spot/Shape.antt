-- ===== src/Spot/Shape.antt =====
-- How the spot price moves with the workspaces that are available.
use final_aldaro.Common.{
  ℕ, ◌+◌, ◌-◌, ◌*◌, ◌/◌, ◌≤◌, ◌<◌, ◌≡◌, inl, inr, min, max, Bool, false, Option, none, some, ltb,
  leb, Bool-cases, arith,
}
use final_aldaro.Spot.Price.{
  Tier, ratio_num, ratio_den, scarcity, idle_tier, saturated, tier_of, round_div, ceiling_cents,
  spot_price_cents,
}

div_mono : (a b n : ℕ) → 0 < n → a ≤ b → a / n ≤ b / n
div_mono a b n h k = grind arith

le_div : (a b n : ℕ) → 0 < n → a * n ≤ b → a ≤ b / n
le_div a b n h k = grind arith

div_le : (a b n : ℕ) → 0 < n → b < (a + 1) * n → b / n ≤ a
div_le a b n h k = grind arith

mul_mono : (a b c : ℕ) → b ≤ c → a * b ≤ a * c
mul_mono a b c h = grind arith

-- A tier that does not raise the base price, and one that does not lower it.
abbrev Lowers : Tier → Type 0
Lowers x = (0 < x.den) × (x.num ≤ x.den)

abbrev Raises : Tier → Type 0
Raises x = (0 < x.den) × (x.den ≤ x.num)

-- Rounded prices are ordered as their fractions are, where a whole price lies between them.
round_div-le : (base n d : ℕ) → 0 < d → n ≤ d → round_div (base * n) d ≤ base
unfolding round_div
round_div-le base n d pos h =
    let cost : base * n ≤ base * d = mul_mono base n d h in
    div_le base (2 * (base * n) + d) (2 * d) (omega arith) (grind arith)

round_div-ge : (base n d : ℕ) → 0 < d → d ≤ n → base ≤ round_div (base * n) d
unfolding round_div
round_div-ge base n d pos h =
    let cost : base * d ≤ base * n = mul_mono base d n h in
    le_div base (2 * (base * n) + d) (2 * d) (omega arith) (grind arith)

round_div_mono : (base n m d : ℕ) → 0 < d → n ≤ m → round_div (base * n) d ≤ round_div (base * m) d
unfolding round_div
round_div_mono base n m d pos h =
    let cost : base * n ≤ base * m = mul_mono base n m h in
    div_mono (2 * (base * n) + d) (2 * (base * m) + d) (2 * d) (omega arith) (omega arith)

-- Prices follow the rounded amounts.
clamp_mono : (top a b : ℕ) → a ≤ b → min top (max 40 a) ≤ min top (max 40 b)
clamp_mono top a b h = omega arith

scarcity-Raises : (a t : ℕ) → 0 < t → Raises (scarcity a t)
unfolding scarcity
scarcity-Raises a t pos = ground arith

saturated-Lowers :
    (last : Option ℕ) (now a t : ℕ) → t ≤ a → Lowers (saturated last now (scarcity a t))
unfolding saturated idle_tier scarcity
saturated-Lowers none now a t full = (omega arith, omega arith)
saturated-Lowers (some last) now a t full = ground arith

scarce : (a t : ℕ) → 2 * a < t → ((scarcity a t).num ≡ 3 * t - 2 * a) × ((scarcity a t).den ≡ 2 * t)
unfolding scarcity
scarce a t h = ground arith

plenty : (a t : ℕ) → t ≤ 2 * a → ((scarcity a t).num ≡ 1) × ((scarcity a t).den ≡ 1)
unfolding scarcity
plenty a t h = ground arith

-- What a pool with this tier asks, before the floor and the ceiling.
abbrev asked : ℕ → Tier → ℕ
asked base tier = round_div (base * tier.num) tier.den

scarcity_mono :
    (base a b t : ℕ) → 0 < t → a ≤ b → asked base (scarcity b t) ≤ asked base (scarcity a t)
scarcity_mono base a b t pos h = elim (Bool-cases (ltb (2 * b) t)) [
  | inl few ↦
      let (num, den) = scarce b t (ground arith) in
      let (num', den') = scarce a t (ground arith) in
      rw (num, den, num', den')
        (round_div_mono base (3 * t - 2 * b) (3 * t - 2 * a) (2 * t) (omega arith) (omega arith))
  | inr many ↦
      let (num, den) = plenty b t (ground arith) in
      let (pos', raises) = scarcity-Raises a t pos in
      let low : round_div (base * 1) 1 ≤ base = round_div-le base 1 1 (omega arith) (omega arith) in
      let high : base ≤ asked base (scarcity a t) =
        round_div-ge base (scarcity a t).num (scarcity a t).den pos' raises in
      rw (num, den) (omega (arith, low, high))
]

ratio_den-pos : (target : ℕ) → 0 < ratio_den target
ratio_den-pos target = ground arith

ratio_num_mono : (a b target : ℕ) → a ≤ b → ratio_num a target ≤ ratio_num b target
ratio_num_mono a b target h = ground arith

saturated_mono :
    (base : ℕ) (last : Option ℕ) (now : ℕ) (x y : Tier)
    → asked base y ≤ asked base x
    → asked base (saturated last now y) ≤ asked base (saturated last now x)
unfolding saturated
saturated_mono base none now x y h = omega arith
saturated_mono base (some last) now x y h = elim (Bool-cases (ltb 43_200_000 (now - last))) [
  | inl idle ↦ rw idle (omega arith)
  | inr recent ↦ rw recent h
]

tier_mono :
    (base a b target : ℕ) (last : Option ℕ) (now : ℕ)
    → a ≤ b
    → asked base (tier_of b target last now) ≤ asked base (tier_of a target last now)
unfolding tier_of
tier_mono base a b target last now h =
    let t = ratio_den target in
    let pos = ratio_den-pos target in
    let fewer = ratio_num_mono a b target h in
    elim (Bool-cases (leb t (ratio_num b target))) [
      | inr short ↦
          let short' : leb t (ratio_num a target) ≡ false = ground arith in
          rw short
            (rw short' (scarcity_mono base (ratio_num a target) (ratio_num b target) t pos fewer))
      | inl full ↦ elim (Bool-cases (leb t (ratio_num a target))) [
        | inl full' ↦ rw full (
            rw full' (
              saturated_mono base last now _ _
                (scarcity_mono base (ratio_num a target) (ratio_num b target) t pos fewer)))
        | inr short' ↦
            let (pos_b, lowers) = saturated-Lowers last now (ratio_num b target) t (ground arith) in
            let (pos_a, raises) = scarcity-Raises (ratio_num a target) t pos in
            let low : asked base (saturated last now (scarcity (ratio_num b target) t)) ≤ base =
              round_div-le base _ _ pos_b lowers in
            let high : base ≤ asked base (scarcity (ratio_num a target) t) =
              round_div-ge base _ _ pos_a raises in
            rw full (rw short' (omega (arith, low, high)))
      ]
    ]

-- More available workspaces never raise the spot price of a GPU type, whatever its base price, its
-- target and its last rental.
pub spot_price_cents_antitone :
    (is_a100 : Bool) (base a b target : ℕ) (last : Option ℕ) (now : ℕ)
    → a ≤ b
    → spot_price_cents is_a100 base (tier_of b target last now)
      ≤ spot_price_cents is_a100 base (tier_of a target last now)
unfolding spot_price_cents
spot_price_cents_antitone is_a100 base a b target last now h =
    clamp_mono (ceiling_cents is_a100) _ _ (tier_mono base a b target last now h)
