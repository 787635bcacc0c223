-- ===== src/Api.antt =====
-- internal/api: the query strings and the handlers of the API server.
pub mod Fields
pub mod Params
pub mod Checked
pub mod Parsed
pub mod Server
