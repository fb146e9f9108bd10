-- ===== src/Failover.antt =====
-- internal/httpapi: how one request walks the tiers of its plan (failover.go, tier_breaker.go,
-- session_affinity.go and the error mapping of exec.go).
pub mod Policy
pub mod Gateway
pub mod Runs
pub mod Walk
pub mod Invariant
pub mod Protocol
pub mod Floor
pub mod Report
pub mod Layers
pub mod Resort
pub mod Session
pub mod Attempt
