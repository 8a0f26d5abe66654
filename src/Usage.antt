-- ===== src/Usage.antt =====
-- internal/usage: what the session logs of a Codex home say of the tokens used and of the limits.
pub mod Json
pub mod Tally
pub mod Scan
pub mod Relate
pub mod Conserve
pub mod Newest
pub mod Limits
