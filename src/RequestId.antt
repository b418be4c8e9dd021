-- ===== src/RequestId.antt =====
-- api/common/helpers/request-id-validation.js: the guard on the tracing header. The header's name
-- comes from the configuration.
pub mod Laws
use Prim.Native.String.{String, ◌++◌}
use fcp_sfd_object_processor.Common.{
  ℕ, Bool, true, false, Option, none, some, text_length, leb, if◌then◌else◌, Result, ok, err,
  message,
}
use fcp_sfd_object_processor.Json.{Json, str, Fields, field, obj, get, remove_field}
use fcp_sfd_object_processor.Logs.{build_oversized_request_id_log}

abbrev pub max_request_id_length : ℕ
max_request_id_length = 50

-- a request by its headers and the rest of it
pub record Request : Type 0 where
  pub headers : Fields
  pub rest : Json

-- whether the request goes on, the request afterwards, and the line that is logged
pub record Guarded : Type 0 where
  pub result : Result {0} Unit
  pub request : Request
  pub logged : Option Json

abbrev pub let_through : Request → Guarded
let_through request = record { result = ok tt; request = request; logged = none }

abbrev pub refuse : String → Request → ℕ → Guarded
refuse header request header_length = record {
  result = err (message (header ++ " header must be 50 characters or fewer"));
  request = record request { headers = remove_field header request.headers };
  logged = some (build_oversized_request_id_log request.rest header_length);
}

abbrev pub guard_id : String → Request → Json → Guarded
guard_id header request (str id) =
    if leb (text_length id) max_request_id_length
    then let_through request
    else refuse header request (text_length id)
guard_id header request id = let_through request

-- rejectOversizedRequestId
unfoldable pub reject_oversized_request_id : String → Request → Guarded
reject_oversized_request_id header request =
    guard_id header request (get (obj request.headers) header)
