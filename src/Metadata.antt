-- ===== src/Metadata.antt =====
-- repos/metadata.js: how a callback's payload becomes documents, and how they are stored and read.
pub mod Format
pub mod Paging
use fcp_sfd_object_processor.Common.{
  ℕ, zero, suc, ◌+◌, String, Bool, true, false, ◌&&◌, Option, none, some, List, [], ◌∷◌, any, map,
  filter, length, take, is_empty, ltb, if◌then◌else◌, Result, ok, err, Failure, message, not_found,
}
use fcp_sfd_object_processor.Common.Results.{◌>>=◌}
use fcp_sfd_object_processor.Json.{
  Json, str, obj, Fields, end, field, put_field, get, is_object, truthy, same,
}
use fcp_sfd_object_processor.Form.{values, normalise_form_fields}
use fcp_sfd_object_processor.Document.{Document, File, Location, Messaging, Stored}
use fcp_sfd_object_processor.Mongo.{Collection}

abbrev no_documents_found : String
no_documents_found = "No documents found"

-- assertCorrelationId, with the schema library's test for a v4 UUID
unfoldable pub assert_correlation_id : (String → Bool) → String → Result String
assert_correlation_id is_uuid correlation_id =
    if is_uuid correlation_id
    then ok correlation_id
    else err (
        message
          "A correlation id is required on the persistence path and must be a v4 UUID; received type string")

-- `typeof data === 'object' && data?.fileId`
abbrev pub is_upload : Json → Bool
is_upload v = is_object v && truthy (get v "fileId")

-- `{ ...fields, ...more }`
abbrev spread_onto : Fields → Fields → Fields
spread_onto fields end = fields
spread_onto fields (field k v more) = spread_onto (put_field k v fields) more

abbrev upload_fields : Json → Fields
upload_fields (obj fs) = fs
upload_fields _ = end

-- the uploads of the form, once grouped ones are numbered
unfoldable pub uploads_of : Json → List Json
uploads_of payload = filter is_upload (values (normalise_form_fields (get payload "form")))

unfoldable pub document_of : Json → String → ℕ → Json → Document
document_of payload correlation_id files_in_batch upload = record {
  raw =
      spread_onto
        (field "uploadStatus" (get payload "uploadStatus")
          (field "numberOfRejectedFiles" (get payload "numberOfRejectedFiles") end))
        (upload_fields upload);
  metadata = get payload "metadata";
  file = record {
    file_id = get upload "fileId";
    filename = get upload "filename";
    content_type = get upload "contentType";
    file_status = get upload "fileStatus";
  };
  s3 = record { key = get upload "s3Key"; bucket = get upload "s3Bucket" };
  messaging = record {
    published_at = none;
    correlation_id = correlation_id;
    files_in_batch = files_in_batch;
  };
}

-- formatInboundMetadata
unfoldable pub format_inbound_metadata : (String → Bool) → Json → String → Result (List Document)
format_inbound_metadata is_uuid payload correlation_id = do
  checked ← assert_correlation_id is_uuid correlation_id
  ok (map (document_of payload checked (length (uploads_of payload))) (uploads_of payload))

abbrev pub has_file_id : List Json → Stored → Bool
has_file_id ids s = any (λ i. same i s.document.file.file_id) ids

unfoldable pub published_update : ℕ → Stored → Stored
published_update now s = record s {
  document = record (s.document) {
    messaging = record (s.document.messaging) { published_at = some now };
  };
}

-- The unique index of the collection is on the file's identifier (data/db.js).
abbrev pub same_file : Stored → Stored → Bool
same_file a b = same a.document.file.file_id b.document.file.file_id

-- the page that getMetadataPageBySbi returns; `next_cursor` is an ObjectId by its number
pub record Page : Type 0 where
  pub documents : List Stored
  pub has_more : Bool
  pub next_cursor : Option ℕ

abbrev pub last_id : List Stored → Option ℕ
last_id [] = none
last_id (s ∷ []) = some s.id
last_id (s ∷ ss) = last_id ss

abbrev pub is_none : Option ℕ → Bool
is_none none = true
is_none (some n) = false

abbrev pub page_of : ℕ → List Stored → Page
page_of page_size results =
    if ltb page_size (length results)
    then record {
      documents = take page_size results;
      has_more = true;
      next_cursor = last_id (take page_size results);
    }
    else record { documents = results; has_more = false; next_cursor = none }

-- the rest of getMetadataPageBySbi, where the argument is what the query returns: the documents of
-- the SBI below the cursor, newest first, one more than the page at most
unfoldable pub metadata_page : ℕ → Option ℕ → List Stored → Result Page
metadata_page page_size cursor results =
    if is_empty results && is_none cursor
    then err (not_found no_documents_found)
    else ok (page_of page_size results)

-- the filter of the page's query: the business, and the cursor where there is one
abbrev pub below : Option ℕ → Stored → Bool
below none s = true
below (some k) s = ltb s.id k

abbrev pub is_of_sbi : Json → Stored → Bool
is_of_sbi sbi s = same (get s.document.metadata "sbi") sbi

module _ (db : Collection Stored) where
  -- getMetadataPageBySbi, but for its projection
  unfoldable pub metadata_page_by_sbi : Json → ℕ → Option ℕ → List Stored → Result Page
  metadata_page_by_sbi sbi page_size cursor c =
      metadata_page page_size cursor
        (db.find_newest (λ s. is_of_sbi sbi s && below cursor s) (λ s. s.id) (page_size + 1) c)

  -- bulkUpdatePublishedAtDate; the result is the documents afterwards
  pub bulk_update_published_at_date : ℕ → List Json → List Stored → Result (List Stored)
  bulk_update_published_at_date now file_ids c =
      if db.acknowledged
      then ok (db.update_many (has_file_id file_ids) (published_update now) c).1
      else err (message "Failed to update publishedAt status")

  -- persistMetadata, of documents with the identifiers that the driver gave them
  unfoldable pub persist_metadata : List Stored → List Stored → Result (List Stored)
  persist_metadata documents c = do
    c' ← db.insert_many same_file documents c
    if db.acknowledged
        then ok c'
        else err (message "Failed to insert, no acknowledgement from database")

  abbrev or_not_found : Option Stored → Result Stored
  or_not_found none = err (not_found no_documents_found)
  or_not_found (some s) = ok s

  -- getMetadataByFileId and getS3ReferenceAndAccountsByFileId, but for their projections
  unfoldable pub get_metadata_by_file_id : Json → List Stored → Result Stored
  get_metadata_by_file_id file_id c =
      or_not_found (db.find_first (λ s. same file_id s.document.file.file_id) c)

  -- getMetadataMessagingByFileIds, projected to the file and the publication date
  pub metadata_messaging_by_file_ids : List Json → List Stored → List (Json × Option ℕ)
  metadata_messaging_by_file_ids [] c = []
  metadata_messaging_by_file_ids (i ∷ ids) c =
      map (λ (s : Stored). (s.document.file.file_id, s.document.messaging.published_at))
        (db.find_all (has_file_id (i ∷ ids)) c)
