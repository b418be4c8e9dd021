-- ===== src/Service.antt =====
-- services/metadata-service.js with repos/status.js: what the callback persists, in one
-- transaction, and how a repeated callback is told from a failure.
pub mod Atomic
pub mod Repeated
use fcp_sfd_object_processor.Common.{
  ℕ, zero, suc, ◌+◌, String, Bool, true, false, ◌==◌, Option, none, some, List, [], ◌∷◌, ◌++◌, map,
  filter, length, if◌then◌else◌, Result, ok, err, Failure, message, coded, not_found,
}
use fcp_sfd_object_processor.Common.Results.{◌>>=◌}
use fcp_sfd_object_processor.Json.{Json, get}
use fcp_sfd_object_processor.Form.{flatten_form_values}
use fcp_sfd_object_processor.Document.{Document, Stored}
use fcp_sfd_object_processor.Mongo.{Collection, duplicate_key_error_code}
use fcp_sfd_object_processor.Status.{
  StatusRecord, ValidationError, validated_status_records, failure_status_records,
}
use fcp_sfd_object_processor.Metadata.{
  assert_correlation_id, format_inbound_metadata, persist_metadata, get_metadata_by_file_id,
}
use fcp_sfd_object_processor.Outbox.{Entry, create_outbox_entries}
use fcp_sfd_object_processor.Callback.Validate.{is_file_entry}

-- the collections that a callback writes
pub record Store : Type 0 where
  pub status : List StatusRecord
  pub metadata : List Stored
  pub outbox : List Entry

-- What the service reads of its surroundings: the driver, the schema library's test for a v4 UUID,
-- the clock by the number of the read, and the identifiers that the driver makes.
pub record Env : Type 0 where
  pub status_db : Collection StatusRecord
  pub metadata_db : Collection Stored
  pub outbox_db : Collection Entry
  pub is_uuid : String → Bool
  pub clock : ℕ → ℕ
  pub metadata_id : ℕ → ℕ
  pub outbox_id : ℕ → ℕ

-- what persistMetadataWithOutbox returns
pub data Persisted : Type 0 where
  inserted : List ℕ → Persisted
  duplicate : String → Persisted

abbrev pub stamped : (ℕ → ℕ) → ℕ → List Document → List Stored
stamped ids i [] = []
stamped ids i (d ∷ ds) = record { id = ids i; document = d } ∷ stamped ids (i + 1) ds

-- as many new identifiers as documents
abbrev pub fresh_ids : (ℕ → ℕ) → ℕ → List Document → List ℕ
fresh_ids ids i [] = []
fresh_ids ids i (d ∷ ds) = ids i ∷ fresh_ids ids (i + 1) ds

module _ (env : Env) where
  -- insertStatus
  unfoldable pub insert_status : List StatusRecord → List StatusRecord → Result (List StatusRecord)
  insert_status records c = do
    c' ← env.status_db.insert_many (λ a b. false) records c
    if env.status_db.acknowledged then ok c' else err (message "Failed to insert status records")

  -- the writes of the transaction, in the order of the source
  unfoldable pub write_all : List Document → Store → Result (List ℕ × Store)
  write_all documents s = do
    status ← insert_status (validated_status_records env.clock 0 documents) s.status
    metadata ← persist_metadata env.metadata_db (stamped env.metadata_id 0 documents) s.metadata
    (ids, outbox) ←
        create_outbox_entries env.outbox_db (env.clock (length documents))
          (fresh_ids env.outbox_id 0 documents) (fresh_ids env.metadata_id 0 documents) documents
          s.outbox
    ok (
      fresh_ids env.metadata_id 0 documents,
      record { status = status; metadata = metadata; outbox = outbox },
    )

  -- The callback of `withTransaction`. A thrown error aborts the transaction: the caller keeps the
  -- collections as they were.
  unfoldable pub transaction : Json → String → Store → Result (List ℕ × Store)
  transaction payload correlation_id s = do
    documents ← format_inbound_metadata env.is_uuid payload correlation_id
    write_all documents s

  -- the identifiers of the files in the raw form
  unfoldable pub raw_file_ids : Json → List Json
  raw_file_ids payload =
      map (λ v. get v "fileId") (filter is_file_entry (flatten_form_values (get payload "form")))

  abbrev pub correlation_of : Result Stored → Result Persisted
  correlation_of (ok s) = ok (duplicate s.document.messaging.correlation_id)
  correlation_of (err f) = err f

  -- the answer to a duplicate key error: only the first file is looked up
  unfoldable pub duplicate_of : Failure → List Json → Store → Result Persisted
  duplicate_of f [] s = err f
  duplicate_of f (i ∷ ids) s = correlation_of (get_metadata_by_file_id env.metadata_db i s.metadata)

  abbrev is_duplicate_key : Failure → Bool
  is_duplicate_key (coded n m) = n == duplicate_key_error_code
  is_duplicate_key _ = false

  -- the rest of persistMetadataWithOutbox: its catch
  unfoldable pub settle : Json → Store → Result (List ℕ × Store) → Result Persisted × Store
  settle payload s (ok (ids, s')) = (ok (inserted ids), s')
  settle payload s (err f) =
      if is_duplicate_key f then (duplicate_of f (raw_file_ids payload) s, s) else (err f, s)

  unfoldable pub persist_metadata_with_outbox : Json → String → Store → Result Persisted × Store
  persist_metadata_with_outbox payload correlation_id s =
      settle payload s (transaction payload correlation_id s)

  abbrev pub keep_status : Store → Result (List StatusRecord) → Result (Unit {0}) × Store
  keep_status s (ok status) = (ok tt, record s { status = status })
  keep_status s (err f) = (err f, s)

  -- persistValidationFailureStatus
  unfoldable pub persist_validation_failure_status :
      Json → ValidationError → String → Store → Result (Unit {0}) × Store
  persist_validation_failure_status payload e correlation_id s = keep_status s (do
    checked ← assert_correlation_id env.is_uuid correlation_id
    insert_status (failure_status_records env.clock 0 payload e checked) s.status)
