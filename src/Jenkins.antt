-- ===== src/Jenkins.antt =====
-- internal/ingest/jenkins: the crawler of a Jenkins server.
pub mod Api
pub mod Builds
pub mod Jobs
pub mod Crawler
