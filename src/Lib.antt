-- ===== src/Lib.antt =====
-- A model of fcp-sfd-object-processor, the service that takes the callbacks of the upload scanner,
-- stores what was uploaded, and publishes an event for each stored file through an outbox.
--
-- The parts, and the files of src/ that they model:
-- - Json: the values of the source language that the callback and the upstream service deliver.
--   `Number` has the integers, and the other numbers by the text that they print as.
-- - Mongo: the driver's collections, which are parameters with the documented behaviour of the
--   methods that are called; Mongo/Lists has an instance over lists.
-- - Document, Metadata: src/repos/metadata.js, with formatInboundMetadata as
--   format_inbound_metadata, and the unique index that src/data/db.js declares as same_file.
--   Metadata/Paging follows the cursors of its pages.
-- - Reading: src/api/v1/metadata/index.js, src/api/v1/blobs/index.js and src/repos/s3.js, with the
--   handlers as handle_metadata and handle_blob.
-- - Database: src/data/db.js. connectDb is connect_db, closeDb is close_db, and createIndexes is
--   create_indexes, whose part on the TTL index of the outbox is reconcile.
-- - Sender: src/messaging/outbound/audit/send-audit-event.js, with sendAuditEvent as
--   send_audit_event; Masking: src/utils/mask-crn.js.
-- - Formats: the folder src/config/formats. Patterns has its regular expressions and Numbers and
--   Tenants the formats of that kind.
-- - RequestId: src/api/common/helpers/request-id-validation.js; Metrics: metrics.js beside it.
-- - Logs: src/api/common/helpers/validation-logger.js and the files src/utils/build-*-log.js, but for
--   those that pass on the language's error objects.
-- - Form: src/utils/normalise-form-fields.js and src/utils/flatten-form-files.js.
-- - Outbox: src/repos/outbox.js and src/constants/outbox.js. claimProcessableOutboxEntries is
--   claim_processable_outbox_entries with its loop claim_loop, finalizeClaimedOutboxEntries is
--   finalize_claimed_outbox_entries, createOutboxEntries is create_outbox_entries. The filters and
--   updates that the source writes as query documents are functions on an entry: is_processable,
--   claim_update, is_finalizable, sent_update and failed_update. Outbox/Runs has the sequences of
--   these operations, by any workers at any times.
-- - Publish: the folder src/messaging/outbound/crm/doc-upload, with publishPendingMessages as
--   publish_pending_messages, one batch as publish_batch, and its transaction as commit_batch; and
--   src/messaging/sns/publish-batch.js. The message service is the parameter `send`.
-- - Runner: src/messaging/outbound/index.js, its timer, runs and shutdown, as a function of events.
-- - Callback: the folder src/api/v1/callback. Checks is validate-file-upload-consistency.js, Validate
--   is validate-callback-payload.js, Handler is index.js with handle-validation-failure.js.
-- - Service: src/services/metadata-service.js and src/repos/status.js. persistMetadataWithOutbox is
--   transaction followed by settle, its catch.
-- - Status: src/mappers/status.js; Status/Query is getStatusByCorrelationId of src/repos/status.js.
-- - Audit: src/utils/build-audit-accounts.js and the audit events.
-- - Journey: src/services/journey-correlation-service.js and src/utils/split-journey-id.js.
-- - Initiate: src/api/v1/uploader/initiate/index.js and src/repos/sessions.js. The HTTP client is
--   the parameter `fetch`; Initiate/Route tests the handler's answer against the response's schema.
-- - Polling: src/api/v1/uploader/status/index.js, with mapCdpStatus as map_cdp_status.
-- - Auth: the folder src/plugins/auth, with the provider of each kind, the strategy over them, and
--   its validation of a token that the token library has verified; Auth/Failure is the hook on
--   rejected requests.
-- - Verdict: src/services/uploader-status-service.js.
-- - Http: src/http/client.js, the hooks that the fetch library calls, with the retry state and the
--   log decisions that they leave.
-- - Schema: the schemas of src/constants/schemas.js, of src/api/v1/schemas, and of the schema files
--   in the routes' folders. A schema is a value; the schema library is a parameter, with its
--   documented behaviour as the laws of a record, and `check` is a validator that has them.
-- - Sonar: scripts/sonar-scan.js. Sonar/Concurrent is mapConcurrent, with a schedule as the list of
--   the workers in the order of their turns; Sonar/Fetched has the paged requests, and Sonar/Scan the
--   scan up to its exit code.
-- The callback calls Journey, Form, Service and Audit; Service calls Metadata, Status and Outbox;
-- Publish calls Outbox and Metadata; Runner stands for the loop around Publish.
--
-- State is passed on explicitly: a collection is the list of its documents, a transaction that
-- throws leaves the lists as they were, each call of a collection is one step that the driver does not
-- reject but where it says so, and an error is a value of Result. Times are milliseconds,
-- and a clock is a function of the number of the read. New identifiers are parameters.
--
-- Bounds: `batches` gives its recursion as much fuel as there are entries, of which each round takes
-- at least one; `decimal` prints numbers of up to 22 digits, and `parse_int` reads up to fifteen. The
-- client `read_all` of the metadata pages runs on fuel, with a theorem that one request more than
-- there are documents is enough. The pages of accepted issues are read on a number of rounds, of
-- which one more than there are issues is enough, and a schedule of mapConcurrent has at most four
-- turns for each item.
--
-- Not modelled: where a log line is written; the test of a handler's answer against the schemas of its
-- responses, but for the initiation; the descriptions, messages, examples and defaults of the
-- schemas, and the conversions of values that they accept, with the length of a text counted in
-- characters where the schema library counts UTF-16 units, and its test for a v4 UUID a parameter;
-- scripts/generate-openapi.js and the texts that the scan prints; the declarations of the
-- configuration, the start of the server, delays between attempts (products of floating-point
-- numbers), and object keys that look like array indices, which the source language would move to the
-- front.
pub mod Common
pub mod Json
pub mod Mongo
pub mod Document
pub mod Outbox
pub mod Audit
pub mod Metadata
pub mod Publish
pub mod Form
pub mod Callback
pub mod Status
pub mod Journey
pub mod Service
pub mod Verdict
pub mod Runner
pub mod Http
pub mod Auth
pub mod Initiate
pub mod Polling
pub mod Reading
pub mod Database
pub mod Masking
pub mod Schema
pub mod Sonar
pub mod Sender
pub mod Formats
pub mod Logs
pub mod RequestId
pub mod Metrics
pub mod Tests
