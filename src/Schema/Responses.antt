-- ===== src/Schema/Responses.antt =====
-- api/v1/schemas/responses.js: the schemas of the responses of a route, by status code, and the
-- tables that the routes build.
use fcp_sfd_object_processor.Common.{ℕ, String, List, [], ◌∷◌, ◌==◌, if◌then◌else◌}
use fcp_sfd_object_processor.Schema.{Schema, no_keys, key, number, string, array, object}
use fcp_sfd_object_processor.Schema.Payloads.{
  callback_success_schema, callback_duplicate_schema, initiate_success_schema,
}
use fcp_sfd_object_processor.Schema.Status.{uploader_status_success_schema, status_not_found_schema}
use fcp_sfd_object_processor.Schema.Metadata.{metadata_success_schema, blob_success_schema}

abbrev pub Responses : Type 0
Responses = List (ℕ × Schema)

-- `schemas[code] = schema`: an own key keeps its place
abbrev pub put_response : ℕ → Schema → Responses → Responses
put_response code s [] = (code, s) ∷ []
put_response code s ((c, t) ∷ rs) =
    let rest = (c, t) ∷ put_response code s rs in if c == code then (c, s) ∷ rs else rest

-- `{ ...schemas, ...custom }`
abbrev pub put_responses : Responses → Responses → Responses
put_responses rs [] = rs
put_responses rs ((c, s) ∷ custom) = put_responses (put_response c s rs) custom

-- `delete schemas[code]`
abbrev pub delete_response : ℕ → Responses → Responses
delete_response code [] = []
delete_response code ((c, s) ∷ rs) =
    let rest = delete_response code rs in if c == code then rest else (c, s) ∷ rest

abbrev pub delete_responses : List ℕ → Responses → Responses
delete_responses [] rs = rs
delete_responses (c ∷ omit) rs = delete_responses omit (delete_response c rs)

abbrev plain_error : Schema
plain_error =
    object (key "statusCode" number (key "error" (string []) (key "message" (string []) no_keys)))

abbrev pub bad_request_response_schema : Schema
bad_request_response_schema = object (
    key "statusCode" number (
      key "error" (string []) (
        key "message" (string []) (
          key "validation"
            (object (key "source" (string []) (key "keys" (array (string [])) no_keys))) no_keys))))

abbrev pub not_found_response_schema : Schema
not_found_response_schema = plain_error

abbrev pub server_error_response_schema : Schema
server_error_response_schema = plain_error

abbrev pub unauthorized_response_schema : Schema
unauthorized_response_schema = object (
    key "statusCode" number (
      key "error" (string []) (
        key "message" (string []) (
          key "attributes"
            (object (key "error" (string []) (key "error_description" (string []) no_keys)))
            no_keys))))

abbrev pub bad_gateway_response_schema : Schema
bad_gateway_response_schema = plain_error

abbrev pub gateway_timeout_response_schema : Schema
gateway_timeout_response_schema = plain_error

abbrev pub default_responses : Responses
default_responses =
    (400, bad_request_response_schema)
    ∷ (401, unauthorized_response_schema)
    ∷ (404, not_found_response_schema)
    ∷ (500, server_error_response_schema)
    ∷ []

-- generateResponseSchemas. A literal key after the computed one replaces it where they agree.
unfoldable pub generate_response_schemas : Schema → ℕ → Responses → List ℕ → Responses
generate_response_schemas success code custom omit =
    delete_responses omit
      (put_responses (put_responses ((code, success) ∷ []) default_responses) custom)

abbrev upstream_errors : Responses
upstream_errors = (502, bad_gateway_response_schema) ∷ (504, gateway_timeout_response_schema) ∷ []

unfoldable pub callback_responses : Responses
callback_responses =
    generate_response_schemas callback_success_schema 201 ((200, callback_duplicate_schema) ∷ [])
      (401 ∷ 404 ∷ [])

unfoldable pub initiate_responses : Responses
initiate_responses =
    generate_response_schemas initiate_success_schema 200 upstream_errors (404 ∷ [])

unfoldable pub uploader_status_responses : List String → Responses
uploader_status_responses mime_types =
    generate_response_schemas (uploader_status_success_schema mime_types) 200
      ((404, status_not_found_schema) ∷ upstream_errors) []

unfoldable pub metadata_responses : Responses
metadata_responses = generate_response_schemas metadata_success_schema 200 [] []

unfoldable pub blob_responses : Responses
blob_responses = generate_response_schemas blob_success_schema 200 [] []
