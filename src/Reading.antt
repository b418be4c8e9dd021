-- ===== src/Reading.antt =====
-- api/v1/metadata/index.js, api/v1/blobs/index.js and repos/s3.js: the two routes that read. Their
-- parameters have passed the schemas; a cursor is known by the ObjectId that its text stands for. The
-- answers are the handlers', before the server tests them against the schemas of the responses.
pub mod Laws
use fcp_sfd_object_processor.Common.{
  ℕ, String, Bool, Option, none, some, List, [], ◌∷◌, map, length, Result, ok, err, Failure,
  message, coded, not_found,
}
use fcp_sfd_object_processor.Common.Results.{◌>>=◌}
use fcp_sfd_object_processor.Json.{Json, undefined, get}
use fcp_sfd_object_processor.Document.{Location, Stored}
use fcp_sfd_object_processor.Mongo.{Collection}
use fcp_sfd_object_processor.Audit.{Accounts, build_audit_accounts}
use fcp_sfd_object_processor.Metadata.{Page, metadata_page_by_sbi, get_metadata_by_file_id}

-- The audit event of a read: the tracing header, an entity for each document, known by its file or
-- by nothing, the accounts, and the details, which are the count and the page size.
pub record ReadAudit : Type 0 where
  pub correlation_id : Json
  pub entities : List (Option Json)
  pub accounts : Option Accounts
  pub details : Option (ℕ × ℕ)

-- buildReadEntities
abbrev pub read_entities : List Stored → List (Option Json)
read_entities [] = none ∷ []
read_entities (s ∷ ss) =
    some s.document.file.file_id ∷ map (λ (t : Stored). some t.document.file.file_id) ss

-- the event of sendReadAuditEvent, whose own failure is only logged
unfoldable pub read_audit : Json → Json → List Stored → ℕ → ReadAudit
read_audit header sbi documents page_size = record {
  correlation_id = header;
  entities = read_entities documents;
  accounts = build_audit_accounts sbi undefined;
  details = some (length documents, page_size);
}

pub data MetadataAnswer : Type 0 where
  -- 200, with the documents, the page size, their count, whether there are more, and the cursor
  metadata_found : List Stored → ℕ → ℕ → Bool → Option ℕ → MetadataAnswer
  -- 404
  metadata_not_found : MetadataAnswer
  -- 500
  metadata_internal : Failure → MetadataAnswer

-- the rest of the handler, once the page is read or the read has thrown
unfoldable pub answer_page : Json → Json → ℕ → Result Page → MetadataAnswer × List ReadAudit
answer_page header sbi page_size (ok page) = (
  metadata_found page.documents page_size (length page.documents) page.has_more page.next_cursor,
  read_audit header sbi page.documents page_size ∷ [],
)
answer_page header sbi page_size (err (not_found m)) =
    (metadata_not_found, read_audit header sbi [] page_size ∷ [])
answer_page header sbi page_size (err (message m)) = (metadata_internal (message m), [])
answer_page header sbi page_size (err (coded n m)) = (metadata_internal (coded n m), [])

-- the handler of metadataRoute
unfoldable pub handle_metadata :
    Collection Stored → Json → Json → ℕ → Option ℕ → List Stored → MetadataAnswer × List ReadAudit
handle_metadata db header sbi page_size after c =
    answer_page header sbi page_size (metadata_page_by_sbi db sbi page_size after c)

-- the presigner of the object store's client: a URL, or a rejection
pub record BlobEnv : Type 0 where
  pub metadata : Collection Stored
  pub presign : Location → Option String

abbrev or_unavailable : Option String → Result String
or_unavailable none = err (message "S3 Unavailable")
or_unavailable (some url) = ok url

-- generatePresignedUrl
unfoldable pub generate_presigned_url : BlobEnv → Location → Result String
generate_presigned_url env location = or_unavailable (env.presign location)

pub data BlobAnswer : Type 0 where
  -- 200
  blob_found : String → BlobAnswer
  -- 404
  blob_not_found : BlobAnswer
  -- 500
  blob_internal : Failure → BlobAnswer

-- the event of a blob that was read
unfoldable pub blob_audit : Json → Json → Stored → ReadAudit
blob_audit header file_id s = record {
  correlation_id = header;
  entities = some file_id ∷ [];
  accounts = build_audit_accounts (get s.document.metadata "sbi") (get s.document.metadata "crn");
  details = none;
}

abbrev pub answer_failure : Failure → BlobAnswer
answer_failure (not_found m) = blob_not_found
answer_failure (message m) = blob_internal (message m)
answer_failure (coded n m) = blob_internal (coded n m)

abbrev pub answer_blob : Json → Json → Result (Stored × String) → BlobAnswer × List ReadAudit
answer_blob header file_id (ok (s, url)) = (blob_found url, blob_audit header file_id s ∷ [])
answer_blob header file_id (err f) = (answer_failure f, [])

-- the document's location, and a URL for it
unfoldable pub locate_blob : BlobEnv → Json → List Stored → Result (Stored × String)
locate_blob env file_id c = do
  s ← get_metadata_by_file_id env.metadata file_id c
  url ← generate_presigned_url env s.document.s3
  ok (s, url)

-- the handler of blobRoute
unfoldable pub handle_blob : BlobEnv → Json → Json → List Stored → BlobAnswer × List ReadAudit
handle_blob env header file_id c = answer_blob header file_id (locate_blob env file_id c)
