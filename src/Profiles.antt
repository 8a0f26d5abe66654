-- ===== src/Profiles.antt =====
-- internal/manager/accounts.go and identity.go: the profiles that are imported, uploaded and deleted.
pub mod Auth
pub mod Upsert
pub mod Import
pub mod Delete
pub mod Search
pub mod Insert
pub mod Refused
pub mod Deleted
