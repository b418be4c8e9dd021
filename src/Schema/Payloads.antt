-- ===== src/Schema/Payloads.antt =====
-- api/v1/callback/schema.js and api/v1/uploader/initiate/schema.js: the two payloads, and the
-- responses that go with them.
use fcp_sfd_object_processor.Common.{String, Bool, List, [], ◌∷◌, any}
use fcp_sfd_object_processor.Json.{Json, arr, elements}
use fcp_sfd_object_processor.Form.{values}
use fcp_sfd_object_processor.Callback.Validate.{is_file_entry}
use fcp_sfd_object_processor.Schema.{
  Schema, Keys, no_keys, key, at_least, pattern, guid, integer, string, array, object, entries_of,
  either, min_keys, custom, required, strict,
}
use fcp_sfd_object_processor.Schema.Uploader.{
  base_metadata_schema, callback_metadata_schema, upload_status_field, rejected_files_field,
  is_relative_path,
}
use fcp_sfd_object_processor.Schema.Files.{file_upload_schema}

-- one value of the form: an array by its items
abbrev pub holds_upload : Json → Bool
holds_upload (arr xs) = any is_file_entry (elements xs)
holds_upload v = is_file_entry v

-- the custom rule of the form's schema
unfoldable pub has_file_upload : Json → Bool
has_file_upload form = any holds_upload (values form)

unfoldable pub form_schema : List String → Schema
form_schema mime_types = required (
    min_keys 1 (
      custom has_file_upload (
        entries_of (string []) (
          either (string [])
            (either (file_upload_schema mime_types) (array (file_upload_schema mime_types)))))))

abbrev pub callback_keys : List String → List String → Keys
callback_keys mime_types document_types = key "uploadStatus" upload_status_field (
    key "metadata" (required (callback_metadata_schema document_types)) (
      key "form" (required (form_schema mime_types))
        (key "numberOfRejectedFiles" rejected_files_field no_keys)))

-- callbackPayloadSchema, for the configured MIME types and document types
unfoldable pub callback_payload_schema : List String → List String → Schema
callback_payload_schema mime_types document_types =
    strict (object (callback_keys mime_types document_types))

unfoldable pub callback_success_schema : Schema
callback_success_schema = object (
    key "message" (string [])
      (key "count" (integer (at_least 0 ∷ [])) (key "ids" (array (string [])) no_keys)))

unfoldable pub callback_duplicate_schema : Schema
callback_duplicate_schema = object (key "message" (string []) no_keys)

abbrev pub initiate_keys : List String → Keys
initiate_keys document_types =
    key "redirect" (required (string (pattern is_relative_path ∷ [])))
      (key "metadata" (required (base_metadata_schema document_types)) no_keys)

unfoldable pub initiate_payload_schema : List String → Schema
initiate_payload_schema document_types = strict (object (initiate_keys document_types))

unfoldable pub initiate_success_schema : Schema
initiate_success_schema = object (
    key "data"
      (required (
        object (
          key "uploadId" (required (string (guid ∷ []))) (
            key "uploadUrl" (required (string []))
              (key "statusUrl" (required (string [])) no_keys)))))
      no_keys)
