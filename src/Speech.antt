-- ===== src/Speech.antt =====
-- internal/speechcache/speechcache.go: synthesized clips, kept in Redis or in the process.
-- `Keys` is the name of a clip, `Values` the stored bytes, `Cache` the operations.
pub mod Names
pub mod Values
pub mod Cache
