-- ===== src/Spot.antt =====
-- Spot pricing: the worker's hourly change of prices.
pub mod Price
pub mod Shape
pub mod Market
pub mod Bounds
mod Tests
