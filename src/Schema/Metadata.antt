-- ===== src/Schema/Metadata.antt =====
-- api/v1/metadata/schemas and api/v1/blobs/schemas: the parameters, the query and the responses of
-- the routes that read. The configured largest page is a parameter.

use fcp_sfd_object_processor.Common.{ℕ, String, Bool, ◌&&◌, not, [], ◌∷◌, leb, is_empty_text}
use fcp_sfd_object_processor.Json.{null}
use fcp_sfd_object_processor.Formats.Patterns.{all_chars}
use fcp_sfd_object_processor.Schema.{
  Schema, no_keys, key, at_least, at_most, exact_length, pattern, hex, guid, anything, boolean,
  integer, string, valid, array, object, either, required,
}
use fcp_sfd_object_processor.Schema.Uploader.{
  sbi_min, sbi_max, crn_min, crn_max, frn_min, frn_max, cursor_length, in_range,
}

-- `/^\d+$/`
abbrev pub is_digits : String → Bool
is_digits s = not (is_empty_text s) && all_chars (λ c. leb 48 c && leb c 57) s

unfoldable pub metadata_param_schema : Schema
metadata_param_schema =
    object (key "sbi" (required (string (pattern is_digits ∷ exact_length 9 ∷ []))) no_keys)

abbrev cursor_rules : Schema
cursor_rules = string (hex ∷ exact_length cursor_length ∷ [])

unfoldable pub metadata_query_schema : ℕ → Schema
metadata_query_schema largest_page = object (
    key "pageSize" (integer (at_least 1 ∷ at_most largest_page ∷ []))
      (key "after" cursor_rules no_keys))

-- `.allow(null)` is an alternative.
abbrev metadata_page_schema : Schema
metadata_page_schema = required (
    object (
      key "pageSize" (required (integer [])) (
        key "count" (required (integer [])) (
          key "hasMore" (required boolean)
            (key "nextCursor" (required (either (valid (null ∷ [])) cursor_rules)) no_keys)))))

abbrev metadata_fields : Schema
metadata_fields = object (
    key "sbi" (in_range sbi_min sbi_max) (
      key "crn" (in_range crn_min crn_max) (
        key "frn" (in_range frn_min frn_max) (
          key "submissionId" (string []) (
            key "uosr" (string []) (
              key "type" (string [])
                (key "reference" (string []) (key "service" (string []) no_keys))))))))

abbrev file_fields : Schema
file_fields = object (
    key "fileId" (required (string (guid ∷ []))) (
      key "filename" (required (string [])) (
        key "contentType" (required (string []))
          (key "fileStatus" (required (string [])) no_keys))))

unfoldable pub metadata_success_schema : Schema
metadata_success_schema = object (
    key "data"
      (array (
        object (
          key "_id" (required anything) (
            key "metadata" (required metadata_fields)
              (key "file" (required file_fields) no_keys)))))
      (key "page" metadata_page_schema no_keys))

unfoldable pub blob_param_schema : Schema
blob_param_schema = object (key "fileId" (required (string (guid ∷ []))) no_keys)

unfoldable pub blob_success_schema : Schema
blob_success_schema =
    required
      (object (key "data" (required (object (key "url" (required (string [])) no_keys))) no_keys))
