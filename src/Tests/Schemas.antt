-- ===== src/Tests/Schemas.antt =====
-- Instances of the theorems on the schemas, with the validator as the schema library.
use fcp_sfd_object_processor.Common.{String, ◌≡◌, refl, ◌↔◌, true, false, none, List, [], ◌∷◌}
use fcp_sfd_object_processor.Json.{
  Json, num, str, bool, obj, arr, nat, nil, cons, Fields, end, field, get, has,
}
use fcp_sfd_object_processor.Formats.Patterns.{is_uuid}
use fcp_sfd_object_processor.Form.{flatten_form_values}
use fcp_sfd_object_processor.Journey.{journey_id_key}
use fcp_sfd_object_processor.Initiate.{enriched}
use fcp_sfd_object_processor.Callback.Checks.{is_base64}
use fcp_sfd_object_processor.Callback.Validate.{accepted, validate_callback_payload}
use fcp_sfd_object_processor.Schema.{Base}
use fcp_sfd_object_processor.Schema.Joi.{Joi}
use fcp_sfd_object_processor.Schema.Check.{check, checking}
use fcp_sfd_object_processor.Schema.Uploader.{base_metadata_schema, callback_metadata_schema}
use fcp_sfd_object_processor.Schema.Files.{file_upload_schema}
use fcp_sfd_object_processor.Schema.Payloads.{
  callback_success_schema, callback_duplicate_schema, form_schema, has_file_upload,
  callback_payload_schema, initiate_payload_schema,
}
use fcp_sfd_object_processor.Schema.Status.{cdp_status_file_schema}
use fcp_sfd_object_processor.Schema.Responses.{generate_response_schemas}
use fcp_sfd_object_processor.Schema.Tables.{find_response, find_response-generate}
use fcp_sfd_object_processor.Schema.Parsed.{is_parsed}
use fcp_sfd_object_processor.Schema.Uploads.{IsAdmitted, file_upload_schema-IsAdmitted}
use fcp_sfd_object_processor.Schema.Callbacks.{IsCallback, callback_payload_schema-IsCallback}
use fcp_sfd_object_processor.Schema.Stages.{UploadsComplete, validate_callback_payload-of_schema}
use fcp_sfd_object_processor.Schema.Echoed.{initiate_payload_schema-echoed}
use fcp_sfd_object_processor.Schema.Polled.{file_upload_schema-polled}

-- the library, with all else that it decides
abbrev base : Base
base = record { is_guid = is_uuid; converted = λ k s. str s; own_keys = λ n. end }

abbrev joi : Joi
joi = checking base

abbrev mime_types : List String
mime_types = "application/pdf" ∷ []

abbrev document_types : List String
document_types = "CS_Agreement_Evidence" ∷ []

abbrev file_id : String
file_id = "9fcaabe5-77ec-44db-8356-3a6e8dc51b13"

abbrev stored_fields : Fields
stored_fields = field "fileId" (str file_id) (
    field "filename" (str "document.pdf") (
      field "contentType" (str "application/pdf") (
        field "fileStatus" (str "complete") (
          field "contentLength" (num (nat 11264)) (
            field "checksumSha256" (str "bng5jOVC6Tx=")
              (field "s3Key" (str "scanned/key") (field "s3Bucket" (str "bucket") end)))))))

abbrev metadata : Json
metadata = obj (
    field "sbi" (num (nat 105000000)) (
      field "crn" (num (nat 1050000000)) (
        field "frn" (num (nat 1102658375)) (
          field "submissionId" (str "1733826312") (
            field "uosr" (str "105000000_1733826312") (
              field "type" (str "CS_Agreement_Evidence") (
                field "reference" (str "user entered reference")
                  (field "service" (str "rps-portal") end))))))))

abbrev payload : Json
payload = obj (
    field "uploadStatus" (str "ready") (
      field "metadata" metadata (
        field "form"
          (obj (
            field "note" (str "two files") (
              field "one" (obj stored_fields)
                (field "more" (arr (cons (obj stored_fields) nil)) end))))
          (field "numberOfRejectedFiles" (num (nat 0)) end))))

payload_accepted :
    joi.accepts false end (callback_payload_schema mime_types document_types) payload ≡ true
unfolding checking check callback_payload_schema callback_metadata_schema form_schema
    file_upload_schema is_uuid is_base64 has_file_upload
payload_accepted = refl

payload_parsed : is_parsed payload ≡ true
unfolding is_parsed
payload_parsed = refl

callback_payload_schema-IsCallback_example : IsCallback base document_types payload
unfolding checking
callback_payload_schema-IsCallback_example =
    callback_payload_schema-IsCallback joi mime_types document_types payload payload_parsed
      payload_accepted

validate_callback_payload-of_schema_example : ((validate_callback_payload payload).0 ≡ accepted) ↔ (
    (get payload "uploadStatus" ≡ str "ready")
    × UploadsComplete (flatten_form_values (get payload "form")))
validate_callback_payload-of_schema_example =
    validate_callback_payload-of_schema joi mime_types document_types payload payload_parsed
      payload_accepted

-- a refused file: it may carry a checksum by the schema, and may not by the later check
abbrev refused_fields : Fields
refused_fields = field "fileId" (str file_id) (
    field "filename" (str "virus.pdf") (
      field "fileStatus" (str "rejected") (
        field "hasError" (bool true)
          (field "errorMessage" (str "virus") (field "checksumSha256" (str "bng5") end)))))

abbrev refused_file : Json
refused_file = obj refused_fields

refused_file-IsAdmitted : IsAdmitted base refused_file
unfolding is_parsed check file_upload_schema is_uuid is_base64
refused_file-IsAdmitted = file_upload_schema-IsAdmitted base mime_types end refused_fields refl refl

abbrev client : Json
client = obj (field "redirect" (str "/upload-complete") (field "metadata" metadata end))

client_accepted : joi.accepts false end (initiate_payload_schema document_types) client ≡ true
unfolding checking check initiate_payload_schema base_metadata_schema
client_accepted = refl

client_parsed : is_parsed client ≡ true
unfolding is_parsed
client_parsed = refl

initiate_payload_schema-echoed_example :
    (has (get client "metadata") journey_id_key ≡ false)
    × (joi.accepts true end
          (callback_metadata_schema document_types)
          (enriched (get client "metadata") file_id)
        ≡ true)
initiate_payload_schema-echoed_example =
    initiate_payload_schema-echoed joi document_types file_id client client_parsed client_accepted

stored_accepted : joi.accepts false end (file_upload_schema mime_types) (obj stored_fields) ≡ true
unfolding checking check file_upload_schema is_uuid is_base64
stored_accepted = refl

file_upload_schema-polled_example :
    joi.accepts false end (cdp_status_file_schema mime_types) (obj stored_fields) ≡ true
file_upload_schema-polled_example =
    file_upload_schema-polled joi mime_types false end stored_fields (refl, tt) stored_accepted

-- The metadata that a client sends may not hold a journey identifier; a redirect is to a path.
journey_refused :
    joi.accepts false end (initiate_payload_schema document_types) (
      obj (
        field "redirect"
          (str "/upload-complete")
          (field "metadata" (enriched metadata file_id) end)))
    ≡ false
unfolding checking check initiate_payload_schema base_metadata_schema
journey_refused = refl

redirect_refused :
    joi.accepts false end
      (initiate_payload_schema document_types)
      (obj (field "redirect" (str "//other.host") (field "metadata" metadata end)))
    ≡ false
unfolding checking check initiate_payload_schema base_metadata_schema
redirect_refused = refl

-- a form with no upload
no_upload_refused :
    joi.accepts false end (callback_payload_schema mime_types document_types) (
      obj (
        field "uploadStatus"
          (str "ready")
          (field "metadata" metadata (field "form" (obj (field "note" (str "text") end)) end))))
    ≡ false
unfolding checking check callback_payload_schema callback_metadata_schema form_schema
    file_upload_schema is_uuid is_base64 has_file_upload
no_upload_refused = refl

-- the callback documents no 404
callback_not_found_test :
    find_response 404 (
      generate_response_schemas callback_success_schema 201
        ((200, callback_duplicate_schema) ∷ [])
        (401 ∷ 404 ∷ []))
    ≡ none
callback_not_found_test =
    find_response-generate callback_success_schema 201 ((200, callback_duplicate_schema) ∷ [])
      (401 ∷ 404 ∷ []) 404
