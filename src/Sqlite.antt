-- ===== src/Sqlite.antt =====
-- internal/domain/repo/sqlite.go: the repository on an SQL database.
pub mod Tables
pub mod Writes
pub mod Loads
pub mod Queries
pub mod Written
