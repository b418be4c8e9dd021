-- ===== src/Publish/Env.antt =====
-- What a polling run reads, what it changes and what it exchanges with the message service.
use fcp_sfd_object_processor.Common.{ℕ, String, Bool, Option, List}
use fcp_sfd_object_processor.Json.{Json}
use fcp_sfd_object_processor.Audit.{AuditEvent}
use fcp_sfd_object_processor.Document.{Stored}
use fcp_sfd_object_processor.Mongo.{Collection}
use fcp_sfd_object_processor.Outbox.{Entry, Config}

-- The CloudEvent of an entry. Its text is made by `JSON.stringify`.
pub record Message : Type 0 where
  pub id : Json
  pub source : String
  pub specversion : String
  pub type : String
  pub datacontenttype : String
  pub time : String
  pub crn : Json
  pub case_type : Json
  pub title : String
  pub correlation_id : String
  pub files_in_batch : ℕ
  pub file_id : Json
  pub file_name : Json
  pub content_type : Json
  pub url : String
  pub sbi : Json
  pub source_system : Json
  pub submission_id : Json

-- an entry of PublishBatchRequestEntries
pub record RequestEntry : Type 0 where
  pub id : Json
  pub message : Message

pub record FailedResult : Type 0 where
  pub id : Json
  pub code : Option String
  pub reason : Option String

pub record PublishResults : Type 0 where
  pub successful : List Json
  pub failed : List FailedResult

-- what the message service's client does: it answers, or rejects with an error's name and message
pub data Answer : Type 0 where
  answered : PublishResults → Answer
  rejected : String → String → Answer

-- What a run reads of its surroundings: the configuration, its worker's name, the collections, the
-- clock by the number of the read, the calendar, and the message service.
pub record Env : Type 0 where
  pub config : Config
  pub worker : String
  pub outbox : Collection Entry
  pub metadata : Collection Stored
  pub clock : ℕ → ℕ
  -- the day, the month from zero, and the year
  pub calendar : ℕ → ℕ × ℕ × ℕ
  pub iso_text : ℕ → String
  pub base_url : String
  pub send : List RequestEntry → Answer

pub data Metric : Type 0 where
  poll : Bool → Metric
  publish_failed_retryable publish_failed_permanent pending_count : ℕ → Metric
  -- in milliseconds, where the source divides by 1000
  oldest_pending_age : ℕ → Metric

-- What a run changes: the two collections, how often the clock was read, and what was sent out.
pub record World : Type 0 where
  pub outbox : List Entry
  pub metadata : List Stored
  pub reads : ℕ
  pub requests : List (List RequestEntry)
  pub audits : List AuditEvent
  pub metrics : List Metric
