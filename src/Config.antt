-- ===== src/Config.antt =====
-- internal/config/component and internal/ingest/config: component files and the crawler that
-- publishes them.
pub mod Files
pub mod Validated
pub mod Directory
pub mod Crawler
