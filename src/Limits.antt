-- ===== src/Limits.antt =====
-- internal/limits/limits.go, and its use in internal/httpapi/exec.go: caps on what a key uses in
-- rolling windows, with headroom reserved for the requests in flight. `Windows` is about sums and
-- pruning, `Caps` about what `Check` decides, `Headroom` about reservations.
pub mod Buckets
pub mod Check
pub mod Windows
pub mod Caps
pub mod Headroom
pub mod Holds
