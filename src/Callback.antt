-- ===== src/Callback.antt =====
-- api/v1/callback: the route that the upload scanner calls.
pub mod Checks
pub mod Validate
pub mod Handler
