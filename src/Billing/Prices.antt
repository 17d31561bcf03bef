-- ===== src/Billing/Prices.antt =====
-- What a session is charged by the hour: the price that `resolvePrice` finds at launch, against the
-- ones that `startUsageSession` and `startUsageSessionForColdWorkspace` find when the session opens.
use final_aldaro.Common.{ℕ, ◌≡◌, ◌<◌, inl, inr, Option, some, arith, Option-cases}
use final_aldaro.Billing.Catalog.{
  Catalog, locked_price, spot_config, sku_of, resolve_price, session_price, cold_price,
}

-- A price above 0 that `resolvePrice` quotes is what a session that opens on the same tables is
-- charged, with the same mark of a rental; locked for a cold workspace, it is what the cold
-- session is charged, whatever the tables say by then.
pub quoted_price-charged :
    (gpu : ℕ) (locked : Option ℕ) (now price : ℕ) (c c' later : Catalog)
    → resolve_price gpu locked now c ≡ some (price, c')
    → 0 < price
    → (session_price gpu locked now c ≡ (price, c')) × (cold_price gpu (some price) later ≡ price)
unfolding resolve_price session_price cold_price
quoted_price-charged gpu locked now price c c' later e positive =
    elim (Option-cases (locked_price locked)) [
      | inl free ↦ elim (Option-cases (spot_config gpu c)) [
        | inl no_spot ↦ elim (Option-cases (sku_of gpu c)) [
          | inl no_sku ↦ ground arith
          | inr (sku, known) ↦ ground arith
        ]
        | inr (cfg, spot) ↦ ground arith
      ]
      | inr (p, fixed) ↦ ground arith
    ]
