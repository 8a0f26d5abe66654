-- ===== src/Types.antt =====
-- The data of internal/manager/manager.go and of internal/quota/codex.go: the records of the state
-- document, field by field. JSON null and a missing list are the empty list.
mod Clock
mod Quota
mod Accounts
mod People
mod Document
unfoldable pub use Clock.*
unfoldable pub use Quota.*
unfoldable pub use Accounts.*
unfoldable pub use People.*
unfoldable pub use Document.*
