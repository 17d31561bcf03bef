-- ===== src/Spot/Tests.antt =====
-- Spot prices at concrete pools.
use final_aldaro.Common.{◌≤◌, ◌≡◌, refl, false, none, [], ◌∷◌, arith}
use final_aldaro.Cleanup.Rows.{blank_workspace, warm_available}
use final_aldaro.Spot.Price.{tier_of, scarcity, saturated, spot_price_cents, round_div}
use final_aldaro.Spot.Market.{Market}
use final_aldaro.Spot.Shape.{spot_price_cents_antitone}

-- One of ten is left: 100 cents become 140.
surge_price : spot_price_cents false 100 (tier_of 1 10 none 0) ≡ 140
unfolding spot_price_cents tier_of scarcity round_div
surge_price = refl

-- A pool that nobody has rented from is 10% cheaper.
unrented_price : spot_price_cents false 100 (tier_of 10 10 none 0) ≡ 90
unfolding spot_price_cents tier_of saturated scarcity round_div
unrented_price = refl

abbrev market : Market
market = record {
  catalog = record {
    configs =
        record {
          id = 1;
          region = 1;
          gpu_type = 4;
          target_count = 2;
          base_price_cents = 1000;
          current_spot_price_cents = 0;
          last_price_update_at = none;
          last_rental_at = none;
        }
        ∷ [];
    skus = [];
  };
  workspaces = blank_workspace 7 4 1 warm_available 0 ∷ [];
  suggestions = [];
}

spot_price_cents_antitone_example :
    spot_price_cents false 100 (tier_of 10 10 none 0)
    ≤ spot_price_cents false 100 (tier_of 1 10 none 0)
spot_price_cents_antitone_example = spot_price_cents_antitone false 100 1 10 10 none 0 (omega arith)
