-- ===== src/Tests/Polling.antt =====
-- Instances of the theorems on polling.
use fcp_sfd_object_processor.Common.{String, str_eq, ◌≡◌, refl, false, none, some, []}
use fcp_sfd_object_processor.Json.{Json, str, num, nat, obj, end, field, get, has}
use fcp_sfd_object_processor.Journey.{journey_id_key}
use fcp_sfd_object_processor.Verdict.{Reads}
use fcp_sfd_object_processor.Initiate.{responded}
use fcp_sfd_object_processor.Polling.{Shown, mapped_status, map_cdp_status, shown, PollEnv, poll}
use fcp_sfd_object_processor.Polling.Laws.{
  ShownFrom, IsReported, mapped_status-IsReported, poll-hides,
}
use fcp_sfd_object_processor.Tests.Data.{metadata}

abbrev empty_reads : Reads
empty_reads = record {
  session = none;
  statuses = λ j. [];
  published = λ is. [];
  delivery = λ is. [];
}

abbrev response : Json
response = obj (
    field "uploadStatus" (str "ready") (
      field "numberOfRejectedFiles" (num (nat 1))
        (field "form" (obj end) (field "metadata" metadata end))))

mapped_status-IsReported_example : IsReported (mapped_status empty_reads response)
mapped_status-IsReported_example = mapped_status-IsReported empty_reads response

abbrev env : PollEnv
env = record {
  fetch = λ upload_id. responded 200 (some response);
  accepts = some;
  reads = λ upload_id. empty_reads;
}

abbrev given : Shown
given = map_cdp_status empty_reads response

polled : poll env "upload" ≡ shown given
unfolding poll
polled = refl

poll-hides_example :
    (has given.metadata journey_id_key ≡ false)
    × (r : Json) × ShownFrom env "upload" given r
    × ((k : String)
        → str_eq journey_id_key k ≡ false
        → get given.metadata k ≡ get (get r "metadata") k)
poll-hides_example = poll-hides env "upload" given polled
