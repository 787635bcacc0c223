-- ===== src/Bitbucket.antt =====
-- internal/ingest/bitbucket: the crawler of Bitbucket projects and the client's pagination.
pub mod Api
pub mod Paged
pub mod Crawler
