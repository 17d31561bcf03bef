-- ===== src/Billing/Catalog.antt =====
-- Prices: the tables `warm_pool_config` and `gpu_skus` (packages/db/prisma/schema.prisma), and how a
-- session's price is found (`resolvePrice` of apps/api/src/services/workspaceService.ts, and
-- the fallback of `startUsageSessionForColdWorkspace` of worker/src/jobs/warm-pool.ts). The keys of
-- GPU types are opaque numbers.
use final_aldaro.Common.{
  ℕ, Option, none, some, List, ◌==◌, ltb, if◌then◌else◌, find_first, update_many,
}

pub record WarmPoolConfig : Type 0 where
  pub id : ℕ
  pub region : ℕ
  pub gpu_type : ℕ
  pub target_count : ℕ
  pub base_price_cents : ℕ
  pub current_spot_price_cents : ℕ
  pub last_price_update_at : Option ℕ
  pub last_rental_at : Option ℕ

-- `spot_multiplier` in hundredths.
pub record GpuSku : Type 0 where
  pub key : ℕ
  pub price_per_hour_cents : ℕ
  pub spot_price_cents : Option ℕ
  pub spot_multiplier : ℕ

pub record Catalog : Type 0 where
  pub configs : List WarmPoolConfig
  pub skus : List GpuSku

abbrev pub config_of : ℕ → Catalog → Option WarmPoolConfig
config_of gpu c = find_first (λ cfg. cfg.gpu_type == gpu) c.configs

abbrev pub sku_of : ℕ → Catalog → Option GpuSku
sku_of gpu c = find_first (λ sku. sku.key == gpu) c.skus

-- `warmPoolConfig.update({ data: { lastRentalAt: new Date() } })`
abbrev pub mark_rental : WarmPoolConfig → ℕ → Catalog → Catalog
mark_rental cfg now c = record c {
  configs =
      update_many (λ r. r.id == cfg.id) (λ r. record r { last_rental_at = some now }) c.configs;
}

-- `if (lockedPriceCents != null && lockedPriceCents > 0)`
abbrev pub locked_price : Option ℕ → Option ℕ
locked_price none = none
locked_price (some p) = if ltb 0 p then some p else none

-- The spot price of a GPU type, where one is set.
abbrev pub spot_config : ℕ → Catalog → Option WarmPoolConfig
spot_config gpu c = elim (config_of gpu c) [
  | none ↦ none
  | some cfg ↦ if ltb 0 cfg.current_spot_price_cents then some cfg else none
]

sku_price_or_throw : Catalog → Option GpuSku → Option (ℕ × Catalog)
sku_price_or_throw c none = none
sku_price_or_throw c (some sku) = some (sku.price_per_hour_cents, c)

-- `resolvePrice`; `none` is the error that blocks the launch.
unfoldable pub resolve_price : ℕ → Option ℕ → ℕ → Catalog → Option (ℕ × Catalog)
unfolding sku_price_or_throw
resolve_price gpu locked now c = elim (locked_price locked) [
  | some p ↦ some (p, c)
  | none ↦ elim (spot_config gpu c) [
    | some cfg ↦ some (cfg.current_spot_price_cents, mark_rental cfg now c)
    | none ↦ sku_price_or_throw c (sku_of gpu c)
  ]
]

abbrev pub sku_price : Option GpuSku → ℕ
sku_price none = 0
sku_price (some sku) = sku.price_per_hour_cents

-- The price that `startUsageSession` uses: as above, but a missing SKU gives a price of 0.
unfoldable pub session_price : ℕ → Option ℕ → ℕ → Catalog → ℕ × Catalog
session_price gpu locked now c = elim (locked_price locked) [
  | some p ↦ (p, c)
  | none ↦ elim (spot_config gpu c) [
    | some cfg ↦ (cfg.current_spot_price_cents, mark_rental cfg now c)
    | none ↦ (sku_price (sku_of gpu c), c)
  ]
]

-- The same for a cold workspace, whose fallback does not count as a rental.
unfoldable pub cold_price : ℕ → Option ℕ → Catalog → ℕ
cold_price gpu locked c = elim (locked_price locked) [
  | some p ↦ p
  | none ↦ elim (spot_config gpu c) [
    | some cfg ↦ cfg.current_spot_price_cents
    | none ↦ sku_price (sku_of gpu c)
  ]
]
