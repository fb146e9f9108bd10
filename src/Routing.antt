-- ===== src/Routing.antt =====
-- internal/routing/routing.go: a requested model becomes a plan, targets in priority tiers, and a plan
-- becomes the order in which one request tries the targets. `Order` is the ordering of a plan, `Rotate` the round-robin within a tier.
pub mod Types
pub mod Rotate
pub mod Order
pub mod Permutes
pub mod Ranks
pub mod Fuel
