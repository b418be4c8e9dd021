-- ===== src/Status.antt =====
-- mappers/status.js: the records of what became of an upload's validation.
pub mod Query
use Prim.Native.String
use fcp_sfd_object_processor.Common.{
  ℕ, ◌+◌, String, Bool, true, false, not, Option, none, some, List, [], ◌∷◌, map, filter,
  if◌then◌else◌, slice, is_empty_text, text_length, ltb,
}
use fcp_sfd_object_processor.Json.{
  Json, undefined, null, bool, num, str, arr, nat, neg, Items, nil, cons, elements, get, is_object,
  is_nullish, element_text, number_text,
}
use fcp_sfd_object_processor.Document.{Document}
use fcp_sfd_object_processor.Form.{flatten_form_values}

pub record StatusError : Type 0 where
  pub field : String
  pub error_type : Json
  pub received_value : String

pub record StatusRecord : Type 0 where
  pub correlation_id : String
  pub sbi : Json
  pub file_id : Json
  pub timestamp : ℕ
  pub validated : Bool
  pub errors : Option (List StatusError)

-- what is read of an error: its message and its details
pub record ValidationError : Type 0 where
  pub message : Json
  pub details : Json

-- sanitiseReceivedValue
pub sanitise_received_value : Json → String
sanitise_received_value undefined = ""
sanitise_received_value null = ""
sanitise_received_value (str s) = slice 256 s
sanitise_received_value (num n) = number_text n
sanitise_received_value (bool true) = "true"
sanitise_received_value (bool false) = "false"
sanitise_received_value _ = "[complex value]"

abbrev message_or_default : Json → String
message_or_default (str s) = if is_empty_text s then "Validation failed" else s
message_or_default _ = "Validation failed"

-- buildFallbackValidationError
pub fallback_validation_error : ValidationError → StatusError
fallback_validation_error e =
    let text = message_or_default e.message in
    record {
      field = "payload";
      error_type = str (if ltb 256 (text_length text) then slice 256 text else text);
      received_value = "";
    }

-- `path.join('.')`
abbrev join_path : Items → String
join_path nil = ""
join_path (cons x nil) = element_text x
join_path (cons x xs) = String.◌++◌ (element_text x) (String.◌++◌ "." (join_path xs))

abbrev path_text : Json → String
path_text (arr xs) = join_path xs
path_text _ = "unknown"

abbrev pub or_unknown : Json → Json
or_unknown v = if is_nullish v then str "unknown" else v

abbrev error_of_detail : Json → StatusError
error_of_detail d = record {
  field = path_text (get d "path");
  error_type = or_unknown (get d "type");
  received_value = sanitise_received_value (get (get d "context") "value");
}

abbrev errors_of_details : ValidationError → Json → List StatusError
errors_of_details e (arr xs) = map error_of_detail (elements xs)
errors_of_details e _ = fallback_validation_error e ∷ []

-- mapValidationErrors
pub map_validation_errors : ValidationError → List StatusError
map_validation_errors e = errors_of_details e e.details

abbrev integer_or_null : Json → Json
integer_or_null (num (nat n)) = num (nat n)
integer_or_null (num (neg n)) = num (neg n)
integer_or_null _ = null

-- getSbiFromPayload
pub sbi_of_payload : Json → Json
sbi_of_payload payload = integer_or_null (get (get payload "metadata") "sbi")

abbrev pub is_filled_text : Json → Bool
is_filled_text (str s) = not (is_empty_text s)
is_filled_text _ = false

abbrev or_unknown_file : List Json → List Json
or_unknown_file [] = str "unknown" ∷ []
or_unknown_file (i ∷ ids) = i ∷ ids

-- extractFileIdsFromPayload
pub file_ids_of_payload : Json → List Json
file_ids_of_payload payload = or_unknown_file (
    filter is_filled_text
      (map (λ v. get v "fileId") (filter is_object (flatten_form_values (get payload "form")))))

-- buildValidatedStatusDocuments; the clock is read once for each record
unfoldable pub validated_status_records : (ℕ → ℕ) → ℕ → List Document → List StatusRecord
validated_status_records clock reads [] = []
validated_status_records clock reads (d ∷ ds) =
    record {
      correlation_id = d.messaging.correlation_id;
      sbi = get d.metadata "sbi";
      file_id = d.file.file_id;
      timestamp = clock reads;
      validated = true;
      errors = none;
    }
    ∷ validated_status_records clock (reads + 1) ds

abbrev failure_records :
    (ℕ → ℕ) → ℕ → Json → List StatusError → String → List Json → List StatusRecord
failure_records clock reads sbi errors correlation_id [] = []
failure_records clock reads sbi errors correlation_id (i ∷ ids) =
    record {
      correlation_id = correlation_id;
      sbi = sbi;
      file_id = i;
      timestamp = clock reads;
      validated = false;
      errors = some errors;
    }
    ∷ failure_records clock (reads + 1) sbi errors correlation_id ids

-- buildValidationFailureStatusDocuments
pub failure_status_records : (ℕ → ℕ) → ℕ → Json → ValidationError → String → List StatusRecord
failure_status_records clock reads payload e correlation_id =
    failure_records clock reads (sbi_of_payload payload) (map_validation_errors e) correlation_id
      (file_ids_of_payload payload)
