-- ===== src/Breaker.antt =====
-- internal/breaker/breaker.go: the circuit breaker of one tier of an alias. `Types` has the data,
-- `Machine` what one operation does to one stored record, `Stores` the local and the Redis state,
-- `Ops` the methods of `Breaker`; the other modules have the proofs.
pub mod Types
pub mod Machine
pub mod Stores
pub mod Ops
pub mod Cooldown
pub mod Probes
pub mod Records
pub mod Races
pub mod Local
pub mod Reports
pub mod Skips
