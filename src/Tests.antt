-- ===== src/Tests.antt =====
-- Runs of the modelled code on concrete inputs.
pub mod Data
pub mod Breakers
pub mod Stores
pub mod Orders
pub mod Requests
pub mod Pinned
pub mod Logins
pub mod Secrets
pub mod Caps
pub mod Answers
pub mod Clips
pub mod Pools
pub mod Streams
