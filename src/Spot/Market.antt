-- ===== src/Spot/Market.antt =====
-- The worker's turn at the prices: the loop of `updateSpotPrices` (worker/src/jobs/spot-pricing.ts) over
-- the tables `warm_pool_config`, `gpu_skus`, `workspaces` and `pricing_suggestions`.
use final_aldaro.Common.{
  ℕ, Bool, not, some, List, [], ◌∷◌, ◌++◌, ◌==◌, ◌&&◌, is_some, if◌then◌else◌, count, update_many,
}
use final_aldaro.Billing.Catalog.{WarmPoolConfig, GpuSku, Catalog}
use final_aldaro.Cleanup.Rows.{Workspace, is_warm_available}
use final_aldaro.Spot.Price.{Tier, tier_of, spot_price_cents, hundredths}

-- What the audit trail keeps of a change.
pub record PricingSuggestion : Type 0 where
  pub gpu_type : ℕ
  pub current_rate : ℕ
  pub suggested_rate : ℕ
  pub available : ℕ
  pub target_count : ℕ
  pub tier : Tier

pub record Market : Type 0 where
  pub catalog : Catalog
  pub workspaces : List Workspace
  pub suggestions : List PricingSuggestion

abbrev pub is_on_offer : WarmPoolConfig → Workspace → Bool
is_on_offer cfg ws =
    is_warm_available ws.status
    && (ws.gpu_type == cfg.gpu_type
        && (ws.region == cfg.region && (ws.is_warm_pool && not (is_some ws.assigned_user_id))))

abbrev pub reprice_config : ℕ → ℕ → WarmPoolConfig → WarmPoolConfig
reprice_config price now cfg = record cfg {
  current_spot_price_cents = price;
  last_price_update_at = some now;
}

abbrev pub reprice_sku : ℕ → Tier → GpuSku → GpuSku
reprice_sku price tier sku = record sku {
  spot_price_cents = some price;
  spot_multiplier = hundredths tier;
}

abbrev pub suggestion : WarmPoolConfig → ℕ → ℕ → Tier → PricingSuggestion
suggestion cfg price available tier = record {
  gpu_type = cfg.gpu_type;
  current_rate = cfg.current_spot_price_cents;
  suggested_rate = price;
  available = available;
  target_count = cfg.target_count;
  tier = tier;
}

-- The three writes of one turn of the loop.
unfoldable pub write_price : ℕ → WarmPoolConfig → ℕ → ℕ → Tier → Market → Market
write_price now cfg price available tier m = record m {
  catalog = record m.catalog {
    configs = update_many (λ c. c.id == cfg.id) (reprice_config price now) m.catalog.configs;
    skus = update_many (λ s. s.key == cfg.gpu_type) (reprice_sku price tier) m.catalog.skus;
  };
  suggestions =
      if cfg.current_spot_price_cents == price
      then m.suggestions
      else m.suggestions ++ suggestion cfg price available tier ∷ [];
}

-- `is_a100` tells whether a GPU type is the text `A100_80GB`.
unfoldable pub reprice : (ℕ → Bool) → ℕ → WarmPoolConfig → Market → Market
reprice is_a100 now cfg m =
    let available = count (is_on_offer cfg) m.workspaces in
    let tier = tier_of available cfg.target_count cfg.last_rental_at now in
    write_price now cfg (spot_price_cents (is_a100 cfg.gpu_type) cfg.base_price_cents tier)
      available tier m

unfoldable pub reprice_each : (ℕ → Bool) → ℕ → List WarmPoolConfig → Market → Market
reprice_each is_a100 now [] m = m
reprice_each is_a100 now (cfg ∷ cfgs) m = reprice_each is_a100 now cfgs (reprice is_a100 now cfg m)

unfoldable pub update_spot_prices : (ℕ → Bool) → ℕ → Market → Market
update_spot_prices is_a100 now m = reprice_each is_a100 now m.catalog.configs m
