-- ===== src/Callback/Validate.antt =====
-- validation/validate-form-files.js and validation/validate-callback-payload.js: the checks that
-- follow the schema's.
pub mod Accepted
use Prim.Native.String
use fcp_sfd_object_processor.Common.{
  ℕ, zero, suc, String, Bool, true, false, ◌&&◌, not, Option, none, some, List, [], ◌∷◌, ◌++◌,
  if◌then◌else◌, count,
}
use fcp_sfd_object_processor.Json.{
  Json, num, nat, get, has, is_object, is_the_text, same, text_of, truthy,
}
use fcp_sfd_object_processor.Form.{flatten_form_values}
use fcp_sfd_object_processor.Callback.Checks.{check_file_upload_consistency}

-- isFileEntry
abbrev pub is_file_entry : Json → Bool
is_file_entry v = is_object v && has v "fileId"

-- the message of a refusal, and the file that it is about
pub data Verdict : Type 0 where
  accepted : Verdict
  refused : String → Option Json → Verdict

abbrev verdict_of : Json → Option String → Verdict → Verdict
verdict_of v none later = later
verdict_of v (some e) later = refused e (some v)

-- the loop of validateFormFiles
pub check_files : List Json → Verdict
check_files [] = accepted
check_files (v ∷ vs) =
    let later = check_files vs in
    if is_file_entry v then verdict_of v (check_file_upload_consistency v) later else later

-- validateFormFiles
pub validate_form_files : Json → Verdict
unfolding check_files
validate_form_files form = check_files (flatten_form_values form)

abbrev quoted : String → Json → String
quoted what v = String.◌++◌ what (String.◌++◌ (text_of v) "'")

-- the loop of stage 2: the first file that is not complete
pub incomplete_file : List Json → Option Json
incomplete_file [] = none
incomplete_file (v ∷ vs) =
    let later = incomplete_file vs in
    if is_file_entry v && not (is_the_text (get v "fileStatus") "complete") then some v else later

-- `payload || {}` and `form || {}` read alike here, since a missing value has no keys.
pub rejected_count : Json → ℕ
rejected_count payload =
    count (λ v. is_file_entry v && is_the_text (get v "fileStatus") "rejected")
      (flatten_form_values (get payload "form"))

-- the counters that the callback route increments
pub data Counter : Type 0 where
  unexpected_status rejected_files_mismatch validation_failures journey_id_unresolved : Counter

abbrev mismatch : Json → List Counter
mismatch payload =
    if same (get payload "numberOfRejectedFiles") (num (nat (rejected_count payload)))
    then []
    else rejected_files_mismatch ∷ []

abbrev after_stage_two : Json → Option Json → Verdict × List Counter
after_stage_two form (some v) = (
  refused (quoted "fileStatus must be 'complete' but was '" (get v "fileStatus")) (some v),
  unexpected_status ∷ [],
)
after_stage_two form none = (validate_form_files form, [])

abbrev counted_after : List Counter → Verdict × List Counter → Verdict × List Counter
counted_after before (v, cs) = (v, before ++ cs)

-- validateCallbackPayload: the verdict, which the caller persists, and the counters
pub validate_callback_payload : Json → Verdict × List Counter
unfolding incomplete_file rejected_count validate_form_files
validate_callback_payload payload =
    if not (is_the_text (get payload "uploadStatus") "ready")
    then (
      refused (quoted "uploadStatus must be 'ready' but was '" (get payload "uploadStatus")) none,
      unexpected_status ∷ [],
    )
    else counted_after (mismatch payload) (
        after_stage_two (get payload "form")
          (incomplete_file (flatten_form_values (get payload "form"))))
