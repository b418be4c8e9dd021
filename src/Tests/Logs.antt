-- ===== src/Tests/Logs.antt =====
-- Two failures of one field of a response, and an oversized tracing header.
use fcp_sfd_object_processor.Common.{String, ◌≡◌, refl, [], ◌∷◌, decimal}
use fcp_sfd_object_processor.Json.{
  Json, undefined, num, nat, str, obj, end, field, text_of, element_text,
}
use fcp_sfd_object_processor.Masking.{mask_crn}
use fcp_sfd_object_processor.Logs.{ValidationError, format_field_paths, sanitize_value}

abbrev failure_of : String → ValidationError
failure_of crn = record {
  details =
      record {
        path = str "data" ∷ num (nat 0) ∷ str "metadata" ∷ str "crn" ∷ [];
        type = str "number.base";
        message = str crn;
        value = str crn;
      }
      ∷ [];
  message = str crn;
  stack = str crn;
  original = undefined;
}

abbrev request : Json
request = obj (field "method" (str "get") (field "path" (str "/api/v1/metadata/sbi/105000000") end))

paths_logged : format_field_paths (failure_of "1050000001") ≡ "data.0.metadata.crn"
unfolding decimal element_text
paths_logged = refl

crn_masked : sanitize_value "metadata.crn" (str "1050000001") ≡ str "******0001"
unfolding sanitize_value mask_crn text_of
crn_masked = refl
