-- ===== src/Schema/Status.antt =====
-- api/v1/uploader/status/schema.js: the parameters of the status route, the upstream response that
-- it reads, and its own response.
use fcp_sfd_object_processor.Common.{String, List, [], ◌∷◌}
use fcp_sfd_object_processor.Json.{null, str}
use fcp_sfd_object_processor.Schema.{
  Schema, Keys, no_keys, key, guid, number, string, valid, array, object, loose, entries_of, either,
  conditional, required, strict,
}
use fcp_sfd_object_processor.Schema.Uploader.{
  texts, file_statuses, upload_status_field, rejected_files_field, mapped_status_field,
}
use fcp_sfd_object_processor.Schema.Files.{
  filled, declared_type, detail_keys, apply_file_status_conditionals,
}

unfoldable pub uploader_status_params_schema : Schema
uploader_status_params_schema = object (key "uploadId" (required (string (guid ∷ []))) no_keys)

abbrev pub detected_type : List String → Schema
detected_type mime_types =
    conditional "fileStatus" (str "rejected") filled (valid (texts mime_types))

abbrev pub cdp_status_file_keys : List String → Keys
cdp_status_file_keys mime_types = key "fileId" (required (string (guid ∷ []))) (
    key "filename" (required filled) (
      key "contentType" (declared_type mime_types) (
        key "detectedContentType" (detected_type mime_types)
          (key "fileStatus" (valid (texts file_statuses)) detail_keys))))

unfoldable pub cdp_status_file_schema : List String → Schema
cdp_status_file_schema mime_types =
    strict (apply_file_status_conditionals (object (cdp_status_file_keys mime_types)))

unfoldable pub cdp_status_form_schema : List String → Schema
cdp_status_form_schema mime_types = required (
    entries_of (string []) (
      either (cdp_status_file_schema mime_types)
        (either (array (cdp_status_file_schema mime_types)) (string []))))

-- cdpUploaderStatusResponseSchema
unfoldable pub cdp_status_response_schema : List String → Schema
cdp_status_response_schema mime_types = object (
    key "uploadStatus" upload_status_field (
      key "metadata" (required (loose no_keys)) (
        key "form" (cdp_status_form_schema mime_types)
          (key "numberOfRejectedFiles" rejected_files_field no_keys))))

abbrev pub stages : List String
stages =
    "scanning" ∷ "rejected-by-scanner" ∷ "awaiting-callback" ∷ "rejected-by-processor"
    ∷ "delivery-failed" ∷ "accepted" ∷ []

abbrev error_schema : Schema
error_schema =
    object (key "field" (required (string [])) (key "errorType" (required (string [])) no_keys))

unfoldable pub uploader_status_success_schema : List String → Schema
uploader_status_success_schema mime_types = object (
    key "data"
      (required (
        object (
          key "uploadStatus" mapped_status_field (
            key "stage" (required (valid (texts stages))) (
              key "errors" (required (either (array error_schema) (valid (null ∷ [])))) (
                key "metadata" (required (loose no_keys))
                  (key "form" (cdp_status_form_schema mime_types) no_keys)))))))
      no_keys)

unfoldable pub status_not_found_schema : Schema
status_not_found_schema =
    object (key "statusCode" number (key "error" (string []) (key "message" (string []) no_keys)))
