-- ===== src/Repo.antt =====
-- internal/domain/repo: the in-memory repository, its ownership indexes and its queries.
pub mod Memory
pub mod Owners
pub mod Index
pub mod Projection
pub mod Queries
