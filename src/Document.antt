-- ===== src/Document.antt =====
-- repos/metadata.js: the document that is stored for each uploaded file.
use fcp_sfd_object_processor.Common.{ℕ, String, Option}
use fcp_sfd_object_processor.Json.{Json, Fields}

pub record File : Type 0 where
  pub file_id : Json
  pub filename : Json
  pub content_type : Json
  pub file_status : Json

pub record Location : Type 0 where
  pub key : Json
  pub bucket : Json

pub record Messaging : Type 0 where
  pub published_at : Option ℕ
  pub correlation_id : String
  pub files_in_batch : ℕ

pub record Document : Type 0 where
  pub raw : Fields
  pub metadata : Json
  pub file : File
  pub s3 : Location
  pub messaging : Messaging

-- a document with the `_id` under which it is stored
pub record Stored : Type 0 where
  pub id : ℕ
  pub document : Document
