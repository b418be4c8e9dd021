-- ===== src/Formats.antt =====
-- The folder config/formats: what a configured value must be, and what becomes of it. The
-- configuration library calls `coerce` on the text of an environment variable and then `validate`.
-- A value that the code calls `split` on, and that is no text, makes it throw a TypeError.
pub mod Patterns
pub mod Numbers
pub mod Tenants
pub mod Laws
use Prim.Native.String.{String, []}
use fcp_sfd_object_processor.Common.{
  Bool, true, false, not, ◌&&◌, ◌||◌, Option, none, some, List, ◌∷◌, map, all, is_empty,
  is_empty_text, trim, if◌then◌else◌, split, Result, ok, err, message,
}
use fcp_sfd_object_processor.Common.Results.{◌>>=◌}
use fcp_sfd_object_processor.Json.{
  Json, null, str, arr, Items, nil, cons, elements, to_items, is_text, truthy,
}
use Patterns.{is_client_id, is_mime_type, is_uuid, is_uuid_list}

abbrev pub not_a_text : String
not_a_text = "val.split is not a function"

abbrev pub is_blank : Json → Bool
is_blank null = true
is_blank (str s) = is_empty_text s
is_blank v = false

abbrev pub is_text_that : (String → Bool) → Json → Bool
is_text_that p (str s) = p s
is_text_that p v = false

-- `Array.isArray(val) ? val : val.split(',')`
abbrev pub listed : Json → Result (List Json)
listed (arr items) = ok (elements items)
listed (str s) = ok (map str (split 44 s))
listed v = err (message not_a_text)

-- the loop over the values
abbrev pub check_all : (String → Bool) → String → List Json → Result {0} Unit
check_all p error values = if all (is_text_that p) values then ok tt else err (message error)

abbrev validate_values : (String → Bool) → String → Json → Result {0} Unit
validate_values p error v = if is_blank v then ok tt else (listed v >>= check_all p error)

abbrev pub coerce_list : Json → Result Json
coerce_list (arr items) = ok (arr items)
coerce_list v =
    if is_blank v then ok (arr nil) else (listed v >>= (λ values. ok (arr (to_items values))))

-- validate and coerce of cognito-client-ids.js
unfoldable pub validate_client_ids : Json → Result {0} Unit
validate_client_ids v =
    validate_values is_client_id
      "Must be a comma separated list of valid Cognito client IDs (alphanumeric)" v

unfoldable pub coerce_client_ids : Json → Result Json
coerce_client_ids v = coerce_list v

-- validate and coerce of mime-types.js
unfoldable pub validate_mime_types : Json → Result {0} Unit
validate_mime_types v =
    validate_values is_mime_type "Must be a comma separated list of valid MIME types" v

unfoldable pub coerce_mime_types : Json → Result Json
coerce_mime_types v = coerce_list v

abbrev pub group_error : String
group_error = "Must be a comma separated list of valid UUIDs"

-- validate and coerce of entra-security-groups.js, which tests a text as a whole. A test of a
-- value that is no text tests what it prints, which is no UUID for a number or a Boolean.
unfoldable pub validate_security_groups : Json → Result {0} Unit
validate_security_groups (arr items) = check_all is_uuid group_error (elements items)
validate_security_groups (str s) =
    if is_empty_text s || is_uuid_list s then ok tt else err (message group_error)
validate_security_groups v = if is_blank v then ok tt else err (message group_error)

unfoldable pub coerce_security_groups : Json → Result Json
coerce_security_groups v = coerce_list v

-- parseTypes of document-types.js
abbrev pub parse_types : Json → Result (List Json)
parse_types (arr items) = ok (elements items)
parse_types v = if truthy v then listed v else ok List.[]

abbrev pub is_filled : String → Bool
is_filled s = not (is_empty_text (trim s))

abbrev check_types : List Json → Result {0} Unit
check_types types =
    if is_empty types
    then err (message "CDP_UPLOADER_DOCUMENT_TYPES must contain at least one document type")
    else check_all is_filled "Must be a comma separated list of non-empty document type strings"
        types

abbrev pub trimmed : Json → Json
trimmed (str s) = str (trim s)
trimmed v = v

-- validate and coerce of document-types.js
unfoldable pub validate_document_types : Json → Result {0} Unit
validate_document_types v = parse_types v >>= check_types

unfoldable pub coerce_document_types : Json → Result Json
coerce_document_types v = parse_types v >>= (λ types. ok (arr (to_items (map trimmed types))))
