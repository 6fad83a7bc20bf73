-- ===== src/Store.antt =====
-- server/store: the stores between the handlers and the database.
pub mod Rows
pub mod Builds
pub mod Status
pub mod Database
pub mod Repos
pub mod Hooks
pub mod Sync
pub mod Users
pub mod Jobs
pub mod Teams
