-- ===== src/Tests/Data.antt =====
-- A configuration, two files and their callback, and the outbox entries that the instances start
-- from.
use fcp_sfd_object_processor.Common.{ℕ, String, Bool, true, Option, none, some}
use fcp_sfd_object_processor.Json.{Json, num, nat, str, arr, obj, nil, cons, end, field}
use fcp_sfd_object_processor.Document.{Document}
use fcp_sfd_object_processor.Outbox.{Status, Entry, Config}

abbrev pub settings : Config
settings = record {
  max_attempts = 3;
  claim_lease_ms = 60000;
  query_limit = 5;
  interval_ms = 30000;
  drain_timeout_ms = 10000;
}

abbrev pub upload : String → Json
upload file_id = obj (
    field "fileId" (str file_id) (
      field "fileStatus" (str "complete") (
        field "s3Key" (str "key") (
          field "s3Bucket" (str "bucket") (
            field "checksumSha256" (str "AAAAAAAAAAAAAAAAAAAAAAAAAAAAAAAAAAAAAAAAAAA=")
              (field "contentLength" (num (nat 1024)) end))))))

abbrev pub metadata : Json
metadata = obj (
    field "sbi" (str "105000000")
      (field "submissionId" (str "1733826312") (field "journeyId" (str "journey") end)))

abbrev pub payload : Json
payload = obj (
    field "uploadStatus" (str "ready") (
      field "metadata" metadata (
        field "form"
          (obj (field "a" (upload "one") (field "b" (arr (cons (upload "two") nil)) end))) end)))

abbrev pub document : String → Document
document file_id = record {
  raw = end;
  metadata = metadata;
  file = record {
    file_id = str file_id;
    filename = str "a.pdf";
    content_type = str "application/pdf";
    file_status = str "complete";
  };
  s3 = record { key = str "key"; bucket = str "bucket" };
  messaging = record { published_at = none; correlation_id = "journey"; files_in_batch = 2 };
}

abbrev pub entry_in : Status → ℕ → Option String → Option ℕ → Entry
entry_in status attempts claimed_by claimed_until = record {
  id = 7;
  message_id = 1;
  payload = document "one";
  status = status;
  attempts = attempts;
  created_at = 100;
  claimed_at = elim claimed_until [ none ↦ none | some t ↦ some 150 ];
  claimed_until = claimed_until;
  claimed_by = claimed_by;
  last_attempted_at = none;
  error = none;
}

abbrev pub is_some_uuid : String → Bool
is_some_uuid s = true
