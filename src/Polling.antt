-- ===== src/Polling.antt =====
-- api/v1/uploader/status/index.js: what a client that polls an upload is told.
pub mod Laws
use Prim.Native.String
use fcp_sfd_object_processor.Common.{
  ℕ, String, Bool, true, false, ◌&&◌, not, Option, none, some, List, [], ◌∷◌, ◌==◌, leb, decimal,
  slice, is_empty_text, map, filter, if◌then◌else◌,
}
use fcp_sfd_object_processor.Json.{
  Json, Number, nat, frac, inf, num, str, get, is_object, is_the_text,
}
use fcp_sfd_object_processor.Form.{flatten_form_values, normalise_form_fields}
use fcp_sfd_object_processor.Journey.{split_journey_id}
use fcp_sfd_object_processor.Verdict.{
  ClientError, Verdict, awaiting_callback, accepted, delivery_failed, rejected_by_processor, Reads,
  local_verdict,
}
use fcp_sfd_object_processor.Initiate.{Fetched, timed_out, broken, responded}

-- 'success', 'failure' and 'pending'
pub data UploadStatus : Type 0 where
  upload_success upload_failure upload_pending : UploadStatus

-- the three fields of a mapped status
pub record MappedStatus : Type 0 where
  pub upload_status : UploadStatus
  pub stage : String
  pub errors : Option (List ClientError)

pub record Shown : Type 0 where
  pub status : MappedStatus
  pub form : Json
  pub metadata : Json

abbrev rejected_by_scanner : String
rejected_by_scanner = "rejected-by-scanner"

-- The first 256 characters of a text; no other value counts, as an empty text does not.
abbrev short_text : Json → String
short_text (str s) = slice 256 s
short_text _ = Prim.Native.String.[]

abbrev name_text : Json → String
name_text (str s) = slice 256 s
name_text _ = "file"

abbrev first_filled : String → String → String → String
first_filled a b c = if is_empty_text a then (if is_empty_text b then c else b) else a

abbrev scanner_error : Json → ClientError
scanner_error file = record {
  field = name_text (get file "filename");
  error_type = str (
      first_filled (short_text (get file "errorCode")) (short_text (get file "errorMessage"))
        rejected_by_scanner);
}

abbrev is_rejected_file : Json → Bool
is_rejected_file v = is_object v && is_the_text (get v "fileStatus") "rejected"

abbrev pub or_scanner_default : List ClientError → List ClientError
or_scanner_default [] = record { field = "file"; error_type = str rejected_by_scanner } ∷ []
or_scanner_default (e ∷ es) = e ∷ es

-- extractScannerErrors
unfoldable pub extract_scanner_errors : Json → List ClientError
extract_scanner_errors form =
    or_scanner_default (map scanner_error (filter is_rejected_file (flatten_form_values form)))

-- `v > 0`, of a value that the contract of the upstream service allows
abbrev pub above_zero : Json → Bool
above_zero (num (nat n)) = not (n == 0)
above_zero (num (frac negative t)) = not negative
above_zero (num (inf negative)) = not negative
above_zero _ = false

-- what getLocalVerdictByUploadId returns for each verdict
unfoldable pub status_of_verdict : Verdict → MappedStatus
status_of_verdict awaiting_callback = record {
  upload_status = upload_pending;
  stage = "awaiting-callback";
  errors = none;
}
status_of_verdict accepted = record {
  upload_status = upload_success;
  stage = "accepted";
  errors = none;
}
status_of_verdict delivery_failed = record {
  upload_status = upload_failure;
  stage = "delivery-failed";
  errors = some (record { field = "delivery"; error_type = str "permanent-failure" } ∷ []);
}
status_of_verdict (rejected_by_processor es) = record {
  upload_status = upload_failure;
  stage = "rejected-by-processor";
  errors = some es;
}

-- the three branches of mapCdpStatus
unfoldable pub mapped_status : Reads → Json → MappedStatus
mapped_status reads response =
    if is_the_text (get response "uploadStatus") "ready"
    then (if above_zero (get response "numberOfRejectedFiles")
        then record {
          upload_status = upload_failure;
          stage = rejected_by_scanner;
          errors = some (extract_scanner_errors (get response "form"));
        }
        else status_of_verdict (local_verdict reads))
    else record { upload_status = upload_pending; stage = "scanning"; errors = none }

-- mapCdpStatus
unfoldable pub map_cdp_status : Reads → Json → Shown
map_cdp_status reads response = record {
  status = mapped_status reads response;
  form = normalise_form_fields (get response "form");
  metadata = (split_journey_id (get response "metadata")).1;
}

pub data Polled : Type 0 where
  shown : Shown → Polled
  upload_not_found poll_timeout : Polled
  poll_bad_gateway : String → Polled

-- what the handler reads: the upstream service, the schema of its response, which gives the value
-- that it accepts, and what the queries return for the upload
pub record PollEnv : Type 0 where
  pub fetch : String → Fetched
  pub accepts : Json → Option Json
  pub reads : String → Reads

abbrev pub answer_accepted : Reads → Option Json → Polled
answer_accepted reads none = poll_bad_gateway "Upstream service response failed validation"
answer_accepted reads (some response) = shown (map_cdp_status reads response)

abbrev pub answer_parsed : PollEnv → String → Option Json → Polled
answer_parsed env upload_id none = poll_bad_gateway "Invalid response from Upstream service"
answer_parsed env upload_id (some body) = answer_accepted (env.reads upload_id) (env.accepts body)

abbrev pub answer_polled : PollEnv → String → Fetched → Polled
answer_polled env upload_id timed_out = poll_timeout
answer_polled env upload_id broken = poll_bad_gateway "Upstream service request failed"
answer_polled env upload_id (responded status body) =
    if status == 404
    then upload_not_found
    else if leb 200 status && leb status 299
    then answer_parsed env upload_id body
    else poll_bad_gateway (String.◌++◌ "Upstream service returned " (decimal status))

-- the handler
unfoldable pub poll : PollEnv → String → Polled
poll env upload_id = answer_polled env upload_id (env.fetch upload_id)
