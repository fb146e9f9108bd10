-- ===== src/Providers.antt =====
-- internal/providers: the failures of a provider call (errors.go) and the concurrency slots of a
-- registered provider (provider.go).
pub mod Errors
pub mod Slots
