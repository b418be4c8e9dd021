-- ===== src/Schema/Files.antt =====
-- api/v1/schemas/file-upload-schema.js: one uploaded file. The configured MIME types are a parameter.
use fcp_sfd_object_processor.Common.{String, true, List, [], ◌∷◌}
use fcp_sfd_object_processor.Json.{str, bool}
use fcp_sfd_object_processor.Callback.Checks.{is_base64}
use fcp_sfd_object_processor.Schema.{
  Schema, Keys, no_keys, key, at_least, min_length, max_length, pattern, guid, anything, boolean,
  forbidden, integer, string, valid, object, loose, conditional, when_object, also, required,
  strict,
}
use fcp_sfd_object_processor.Schema.Uploader.{texts, file_statuses}

abbrev pub filled : Schema
filled = string (min_length 1 ∷ [])

-- `Joi.object({ fileStatus: Joi.valid(status).required() }).unknown()`
abbrev pub has_status : String → Schema
has_status status = loose (key "fileStatus" (required (valid (str status ∷ []))) no_keys)

abbrev pub complete_keys : Keys
complete_keys = key "s3Key" (required anything) (
    key "s3Bucket" (required anything) (
      key "checksumSha256" (required anything) (
        key "contentLength" (required (integer (at_least 1 ∷ []))) (
          key "hasError" forbidden (
            key "errorMessage" forbidden
              (key "errorCode" forbidden (key "errorParams" forbidden no_keys)))))))

abbrev pub rejected_keys : Keys
rejected_keys = key "hasError" (required (valid (bool true ∷ []))) (
    key "errorMessage" (required filled) (key "s3Key" forbidden (key "s3Bucket" forbidden no_keys)))

-- applyFileStatusConditionals
abbrev pub apply_file_status_conditionals : Schema → Schema
apply_file_status_conditionals schema =
    also (also schema (when_object (has_status "complete") complete_keys))
      (when_object (has_status "rejected") rejected_keys)

abbrev pub declared_type : List String → Schema
declared_type mime_types =
    conditional "fileStatus" (str "rejected") filled (required (valid (texts mime_types)))

-- the fields that the schemas of the callback and of the status response spell alike, from
-- contentLength on but for fileStatus
abbrev pub detail_keys : Keys
detail_keys = key "contentLength" (integer (at_least 0 ∷ [])) (
    key "hasError" boolean (
      key "errorMessage" (string (min_length 1 ∷ max_length 2000 ∷ [])) (
        key "errorCode" (string (min_length 1 ∷ max_length 100 ∷ [])) (
          key "errorParams" (loose no_keys) (
            key "checksumSha256" (string (pattern is_base64 ∷ []))
              (key "s3Key" filled (key "s3Bucket" filled no_keys)))))))

abbrev pub file_upload_keys : List String → Keys
file_upload_keys mime_types = key "fileId" (required (string (guid ∷ []))) (
    key "filename" (required filled) (
      key "contentType" (declared_type mime_types) (
        key "detectedContentType" (valid (texts mime_types))
          (key "fileStatus" (required (valid (texts file_statuses))) detail_keys))))

unfoldable pub file_upload_schema : List String → Schema
file_upload_schema mime_types =
    strict (apply_file_status_conditionals (object (file_upload_keys mime_types)))
