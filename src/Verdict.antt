-- ===== src/Verdict.antt =====
-- services/uploader-status-service.js: what became of an upload, from its session, its status
-- records, its documents and its outbox entries. The reads share one causally consistent session,
-- so they are functions of one state.
pub mod Delivery
pub mod Laws
use fcp_sfd_object_processor.Common.{
  ℕ, String, Bool, true, false, ◌&&◌, not, Option, none, some, List, [], ◌∷◌, ◌++◌, any, find,
  filter, map, is_empty, flat_map, if◌then◌else◌, is_empty_text,
}
use fcp_sfd_object_processor.Json.{Json, str, is_nullish, same, is_text}
use fcp_sfd_object_processor.Status.{StatusRecord, StatusError, is_filled_text, or_unknown}
use fcp_sfd_object_processor.Journey.{Session}
use fcp_sfd_object_processor.Outbox.{Status, is_permanent_failure}

-- an error as it is returned to the client
pub record ClientError : Type 0 where
  pub field : String
  pub error_type : Json

-- the three stages of a verdict, with the status that the source writes beside each
pub data Verdict : Type 0 where
  awaiting_callback accepted delivery_failed : Verdict
  rejected_by_processor : List ClientError → Verdict

-- sanitiseErrorsForResponse
pub sanitise_errors : List StatusError → List ClientError
sanitise_errors [] = []
sanitise_errors (e ∷ es) =
    record { field = e.field; error_type = or_unknown e.error_type } ∷ sanitise_errors es

abbrev errors_of : Option (List StatusError) → List StatusError
errors_of none = []
errors_of (some es) = es

abbrev pub or_validation_failed : List ClientError → List ClientError
or_validation_failed [] = record { field = "payload"; error_type = str "validation-failed" } ∷ []
or_validation_failed (e ∷ es) = e ∷ es

-- what the three queries return
pub record Reads : Type 0 where
  pub session : Option Session
  -- the status records of a correlation id, oldest first, up to the query's limit
  pub statuses : String → List StatusRecord
  -- the publication date of each document of the files
  pub published : List Json → List (Json × Option ℕ)
  -- the status of each outbox entry of the files
  pub delivery : List Json → List (Json × Status)

abbrev pub has_failed : StatusRecord → Bool
has_failed r = not r.validated

abbrev pub verdict_file_ids : List StatusRecord → List Json
verdict_file_ids records = filter is_filled_text (map (λ (r : StatusRecord). r.file_id) records)

-- the `Map` of the outbox entries by file, in which the last one of a file stands
abbrev pub delivery_of : Json → List (Json × Status) → Option Status
delivery_of i [] = none
delivery_of i ((j, s) ∷ rs) = elim (delivery_of i rs) [
  | none ↦ if is_text j && same j i then some s else none
  | some t ↦ some t
]

abbrev pub published_of : Json → List (Json × Option ℕ) → Option ℕ
published_of i [] = none
published_of i ((j, t) ∷ ms) = if same j i then t else published_of i ms

abbrev is_published : Option ℕ → Bool
is_published none = false
is_published (some t) = true

abbrev pub has_permanent_failure : Option Status → Bool
has_permanent_failure none = false
has_permanent_failure (some s) = is_permanent_failure s

-- the test of hasUnpublishedPermanentFailure for one file
abbrev pub is_undelivered : List (Json × Status) → List (Json × Option ℕ) → Json → Bool
is_undelivered outbox_records metadata_records i =
    has_permanent_failure (delivery_of i outbox_records)
    && not (is_published (published_of i metadata_records))

unfoldable pub verdict_of_records : Reads → List StatusRecord → Verdict
unfolding sanitise_errors
verdict_of_records reads records =
    if is_empty records
    then awaiting_callback
    else if any has_failed records
    then rejected_by_processor (
        or_validation_failed (
          sanitise_errors
            (flat_map (λ (r : StatusRecord). errors_of r.errors) (filter has_failed records))))
    else if any
        (is_undelivered (reads.delivery (verdict_file_ids records))
          (reads.published (verdict_file_ids records)))
        (verdict_file_ids records)
    then delivery_failed
    else accepted

abbrev pub verdict_of_journey : Reads → Option String → Verdict
verdict_of_journey reads none = awaiting_callback
verdict_of_journey reads (some j) =
    if is_empty_text j then awaiting_callback else verdict_of_records reads (reads.statuses j)

abbrev pub verdict_of_session : Reads → Option Session → Verdict
verdict_of_session reads none = awaiting_callback
verdict_of_session reads (some s) = verdict_of_journey reads s.journey_id

-- getLocalVerdictByUploadId
unfoldable pub local_verdict : Reads → Verdict
unfolding verdict_of_records
local_verdict reads = verdict_of_session reads reads.session
