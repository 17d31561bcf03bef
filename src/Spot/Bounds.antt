-- ===== src/Spot/Bounds.antt =====
-- The prices that a turn of `updateSpotPrices` leaves in the table of warm pools.
use final_aldaro.Common.{
  ℕ, ◌≤◌, ◌≡◌, inl, inr, ◌⊎◌, Bool, true, false, List, [], ◌∷◌, ◌==◌, ==_refl, any, arith, All,
  All-map, All-update_many,
}
use final_aldaro.Billing.Catalog.{WarmPoolConfig}
use final_aldaro.Spot.Price.{Tier, spot_price_cents}
use final_aldaro.Spot.Market.{Market, write_price, reprice, reprice_each, update_spot_prices}

-- A price between the floor and the highest ceiling.
abbrev pub IsPriced : WarmPoolConfig → Type 0
IsPriced c = (40 ≤ c.current_spot_price_cents) × (c.current_spot_price_cents ≤ 500)

spot_price_cents-between :
    (is_a100 : Bool) (base : ℕ) (tier : Tier)
    → (40 ≤ spot_price_cents is_a100 base tier) × (spot_price_cents is_a100 base tier ≤ 500)
unfolding spot_price_cents
spot_price_cents-between true base tier = (omega arith, omega arith)
spot_price_cents-between false base tier = (omega arith, omega arith)

-- The row is priced, or one of the turns that are left has its id.
abbrev Waits : List WarmPoolConfig → WarmPoolConfig → Type 0
Waits cfgs c = (any (λ cfg. cfg.id == c.id) cfgs ≡ true) ⊎ IsPriced c

Waits-next :
    (cfg : WarmPoolConfig) (cfgs : List WarmPoolConfig) (c : WarmPoolConfig)
    → (c.id == cfg.id) ≡ false
    → Waits (cfg ∷ cfgs) c
    → Waits cfgs c
Waits-next cfg cfgs c miss (inl later) = inl (ground arith)
Waits-next cfg cfgs c miss (inr priced) = inr priced

reprice_each-IsPriced :
    (is_a100 : ℕ → Bool) (now : ℕ) (cfgs : List WarmPoolConfig) (m : Market)
    → All (Waits cfgs) m.catalog.configs
    → All IsPriced (reprice_each is_a100 now cfgs m).catalog.configs
unfolding reprice_each reprice write_price
reprice_each-IsPriced is_a100 now [] m h =
    All-map (Waits []) IsPriced m.catalog.configs (λ c w. priced c w) h
  where
    priced : (c : WarmPoolConfig) → Waits [] c → IsPriced c
    priced c (inl never) = cc
    priced c (inr here) = here
reprice_each-IsPriced is_a100 now (cfg ∷ cfgs) m h =
    reprice_each-IsPriced is_a100 now cfgs (reprice is_a100 now cfg m) (
      All-update_many (Waits (cfg ∷ cfgs)) (Waits cfgs) (λ c. c.id == cfg.id) _ m.catalog.configs
        (λ c w hit. inr (spot_price_cents-between (is_a100 cfg.gpu_type) cfg.base_price_cents _))
        (λ c w miss. Waits-next cfg cfgs c miss w) h)

every_row_waits :
    (cfgs : List WarmPoolConfig) → All (λ c. any (λ cfg. cfg.id == c.id) cfgs ≡ true) cfgs
every_row_waits [] = tt
every_row_waits (c ∷ cs) =
    (ground (arith, ==_refl c.id), All-map _ _ cs (λ d later. ground arith) (every_row_waits cs))

-- After a turn of the worker every warm pool has a price between the floor of 40 cents and 500
-- cents.
pub update_spot_prices-IsPriced :
    (is_a100 : ℕ → Bool) (now : ℕ) (m : Market)
    → All IsPriced (update_spot_prices is_a100 now m).catalog.configs
unfolding update_spot_prices
update_spot_prices-IsPriced is_a100 now m = reprice_each-IsPriced is_a100 now m.catalog.configs m (
    All-map _ (Waits m.catalog.configs) m.catalog.configs (λ c w. inl w)
      (every_row_waits m.catalog.configs))
