-- ===== src/Schema/Uploader.antt =====
-- constants/schemas.js and api/v1/schemas/uploader-common.js: the fields that several schemas share.
-- The configured document types are a parameter.
use Prim.Native.Char.{code}
use fcp_sfd_object_processor.Common.{
  ℕ, String, Bool, false, ◌&&◌, not, List, [], ◌∷◌, ◌==◌, is_space, map,
}
use fcp_sfd_object_processor.Formats.Patterns.{all_chars}
use fcp_sfd_object_processor.Json.{Json, str}
use fcp_sfd_object_processor.Journey.{journey_id_key}
use fcp_sfd_object_processor.Schema.{
  Schema, Keys, no_keys, key, with_keys, at_least, at_most, anything, forbidden, integer, string,
  valid, object, conditional, also, required, strict,
}

abbrev pub sbi_min : ℕ
sbi_min = 105000000

abbrev pub sbi_max : ℕ
sbi_max = 999999999

abbrev pub crn_min : ℕ
crn_min = 1050000000

abbrev pub crn_max : ℕ
crn_max = 9999999999

abbrev pub frn_min : ℕ
frn_min = 1000000000

abbrev pub frn_max : ℕ
frn_max = 9999999999

abbrev pub cursor_length : ℕ
cursor_length = 24

abbrev pub texts : List String → List Json
texts = map str

abbrev pub file_statuses : List String
file_statuses = "complete" ∷ "rejected" ∷ "pending" ∷ []

abbrev pub services : List String
services = "fcp-sfd-frontend" ∷ "rps-portal" ∷ []

-- patterns.relativePath, `^\/(?!\/)[^\s]*$`
abbrev pub is_relative_path : String → Bool
is_relative_path String.[] = false
is_relative_path (String.◌∷◌ c String.[]) = code c == b'/'
is_relative_path (String.◌∷◌ c (String.◌∷◌ d s)) =
    code c == b'/'
    && not (code d == b'/')
    && not (is_space (code d))
    && all_chars (λ e. not (is_space e)) s

abbrev pub in_range : ℕ → ℕ → Schema
in_range lo hi = integer (at_least lo ∷ at_most hi ∷ [])

abbrev pub business_identifier_fields : Keys
business_identifier_fields = key "sbi" (required (in_range sbi_min sbi_max)) (
    key "crn" (required (in_range crn_min crn_max))
      (key "frn" (required (in_range frn_min frn_max)) no_keys))

abbrev pub submission_fields : List String → Keys
submission_fields document_types = key "submissionId" (required (string [])) (
    key "type" (required (valid (texts document_types))) (
      key "reference" (required (string [])) (
        key "service" (required (valid (texts services)))
          (key "uosr" (required (string [])) no_keys))))

abbrev pub metadata_keys : List String → Keys
metadata_keys document_types =
    with_keys business_identifier_fields (submission_fields document_types)

unfoldable pub base_metadata_schema : List String → Schema
base_metadata_schema document_types = strict (object (metadata_keys document_types))

abbrev pub callback_metadata_keys : List String → Keys
callback_metadata_keys document_types =
    with_keys (metadata_keys document_types) (key journey_id_key anything no_keys)

-- `baseMetadataSchema.keys({ [JOURNEY_ID_KEY]: Joi.any().optional() })`
unfoldable pub callback_metadata_schema : List String → Schema
callback_metadata_schema document_types = strict (object (callback_metadata_keys document_types))

-- uploaderResponseFields
abbrev pub upload_status_field : Schema
upload_status_field = required (valid (texts ("initiated" ∷ "pending" ∷ "ready" ∷ [])))

-- `.when('uploadStatus', { switch: [...], otherwise: Joi.optional() })`
abbrev pub rejected_files_field : Schema
rejected_files_field = also (integer (at_least 0 ∷ [])) (
    conditional "uploadStatus" (str "pending") forbidden
      (conditional "uploadStatus" (str "initiated") forbidden anything))

-- mappedResponseFields
abbrev pub mapped_status_field : Schema
mapped_status_field = required (valid (texts ("pending" ∷ "success" ∷ "failure" ∷ [])))
