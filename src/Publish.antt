-- ===== src/Publish.antt =====
-- messaging/outbound/crm/doc-upload and messaging/sns: a polling run claims entries, publishes them
-- in batches and finalizes each by what the message service reported. Log lines are not modelled.
pub mod Env
pub mod Message
pub mod Results
pub mod Run
