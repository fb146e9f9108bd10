-- ===== src/Dlp.antt =====
-- internal/dlp/dlp.go: spans of a text that look like secrets, and the text without them.
-- `Patterns` is the table of rules with their checks, `Scan` the search, `Merge` and `Redact` what is
-- proved of `Merge` and of `Redact`, `Checks` what is proved of the checks.
pub mod Types
pub mod Patterns
pub mod Scan
pub mod Merge
pub mod Coverage
pub mod Redact
pub mod Checks
pub mod Found
