-- ===== src/Tests.antt =====
-- Concrete instances of the theorems, on small values.
pub mod Data
pub mod Outbox
pub mod Publish
pub mod Callback
pub mod Clients
pub mod Auth
pub mod Initiate
pub mod Polling
pub mod Reading
pub mod Database
pub mod Sender
pub mod Formats
pub mod Logs
pub mod Repeated
pub mod Failure
pub mod Schemas
pub mod Sonar
pub mod Statuses
