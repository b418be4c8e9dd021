-- ===== src/Logs.antt =====
-- The log lines that the utils/build-*-log.js files build, and
-- api/common/helpers/validation-logger.js. A log line is the value that the logger is handed.
pub mod Laws
use Prim.Native.String.{String, ◌++◌}
use fcp_sfd_object_processor.Common.{
  ℕ, ◌*◌, Bool, true, false, not, ◌||◌, Option, none, some, List, [], ◌∷◌, map, filter, slice,
  text_length, ltb, ends_with, str_eq, if◌then◌else◌, decimal,
}
use fcp_sfd_object_processor.Json.{
  Json, undefined, null, num, nat, str, arr, obj, Fields, end, field, nil, elements, get, truthy,
  or_else, is_nullish, element_text, text_of, to_items, entries,
}
use fcp_sfd_object_processor.Masking.{mask_crn, mask_crn_in_text}

-- `xs.join(s)`, of the texts that the elements print as
abbrev pub join_texts : String → List String → String
join_texts s [] = ""
join_texts s (t ∷ []) = t
join_texts s (t ∷ ts) = t ++ (s ++ join_texts s ts)

abbrev pub join : String → List Json → String
join s vs = join_texts s (map element_text vs)

-- a detail of the schema library's error
pub record Detail : Type 0 where
  pub path : List Json
  pub type : Json
  pub message : Json
  pub value : Json

pub record ValidationError : Type 0 where
  pub details : List Detail
  pub message : Json
  pub stack : Json
  pub original : Json

abbrev event_of : String → Json → Json → Json → Json
event_of type action category reason = obj (
    field "type" (str type) (
      field "action" action
        (field "category" category (field "outcome" (str "failure") (field "reason" reason end)))))

-- formatFieldPaths
abbrev pub format_field_paths : ValidationError → String
format_field_paths e = join_texts ", " (map (λ (d : Detail). join "." d.path) e.details)

abbrev pub response_validation_failed : Json
response_validation_failed = str "Response validation failed"

-- buildResponseValidationFailureLog
unfoldable pub build_response_validation_failure_log : Json → ValidationError → Json
build_response_validation_failure_log request e = obj (
    field "event"
      (event_of "response_validation_failure" (get request "method") (get request "path")
        (str (format_field_paths e)))
      (field "error"
        (obj (
          field "type" (str "ResponseValidationError")
            (field "message" response_validation_failed end)))
        end))

-- responseFailAction: the line that is logged, and the message of the error that is thrown
unfoldable pub response_fail_action : Json → ValidationError → Json × Json
response_fail_action request e =
    (build_response_validation_failure_log request e, response_validation_failed)

abbrev pub is_crn_path : String → Bool
is_crn_path path = str_eq path "crn" || ends_with ".crn" path

abbrev pub truncated : Json → Json
truncated (str s) = if ltb 100 (text_length s) then str (slice 100 s) else str s
truncated v = v

-- sanitizeValue
unfoldable pub sanitize_value : String → Json → Json
sanitize_value path v =
    if str_eq path "metadata.reference"
    then str "[REDACTED]"
    else if is_crn_path path
    then (if is_nullish v then v else str (mask_crn v))
    else truncated v

-- an entry of `validationErrors`
abbrev pub logged_detail : Detail → Json
logged_detail d =
    let path = join "." d.path in
    obj (
      field "field" (str path) (
        field "type" d.type (
          field "value" (sanitize_value path d.value) (
            field "message"
              (if is_crn_path path then mask_crn_in_text d.message d.value else d.message) end))))

-- logValidationFailure: what is added to the logged error
unfoldable pub log_validation_failure : Json → ValidationError → Json
log_validation_failure request e = obj (
    field "validationErrors" (arr (to_items (map logged_detail e.details)))
      (field "path" (get request "path") (field "method" (get request "method") end)))

-- `${key}=${value}` of each entry
abbrev pub printed : String × Json → String
printed (k, arr items) = k ++ ("=" ++ join "," (elements items))
printed (k, v) = k ++ ("=" ++ text_of v)

abbrev pub request_agent : Json → Fields
request_agent request =
    field "client" (obj (field "address" (get (get request "info") "remoteAddress") end)) (
      field "user_agent" (obj (field "original" (get (get request "headers") "user-agent") end))
        end)

-- buildAuthFailureLog
unfoldable pub build_auth_failure_log : String → Json → Fields → Json
build_auth_failure_log reason request extra =
    let context =
      map printed (filter (λ (e : String × Json). not (is_nullish e.1)) (entries extra)) in
    obj (
      field "msg" (str "Authentication failed") (
        field "event"
          (obj (
            field "type" (str "auth_validation_failure") (
              field "action" (get request "method") (
                field "category" (get request "path") (
                  field "reason" (str (join_texts " | " (reason ∷ context)))
                    (field "outcome" (str "failure") end))))))
          (request_agent request)))

-- buildOversizedRequestIdLog
unfoldable pub build_oversized_request_id_log : Json → ℕ → Json
build_oversized_request_id_log request header_length = obj (
    field "event"
      (obj (
        field "type" (str "request_id_too_long") (
          field "action" (get request "method") (
            field "category" (get request "path") (
              field "reason" (str ("header_length=" ++ decimal header_length))
                (field "outcome" (str "failure") (field "kind" (num (nat 400)) end)))))))
      end)

-- formatContext of build-auth-configuration-log.js
abbrev pub format_context : Fields → String
format_context context =
    join_texts " | " (map (λ (e : String × Json). e.0 ++ ("=" ++ text_of e.1)) (entries context))

abbrev configuration_log : String → String → String → Fields → Json
configuration_log msg type outcome context = obj (
    field "msg" (str msg) (
      field "event"
        (obj (
          field "type" (str type)
            (field "outcome" (str outcome) (field "reason" (str (format_context context)) end))))
        end))

-- buildAuthDisabledLog
unfoldable pub build_auth_disabled_log : Bool → Bool → Json
build_auth_disabled_log entra_enabled cognito_enabled =
    configuration_log "Authentication is disabled; every route will serve unauthenticated requests"
      "auth_disabled" "unknown"
      (field "entraEnabled" (Json.bool entra_enabled)
        (field "cognitoEnabled" (Json.bool cognito_enabled) end))

-- buildAuthConfigurationFailureLog
unfoldable pub build_auth_configuration_failure_log : Bool → Bool → ℕ → Json
build_auth_configuration_failure_log entra_enabled cognito_enabled entra_tenant_count =
    configuration_log
      "Authentication is enabled but no provider could be configured; every route will serve unauthenticated requests"
      "auth_configuration_failure" "failure"
      (field "entraEnabled" (Json.bool entra_enabled) (
        field "cognitoEnabled" (Json.bool cognito_enabled)
          (field "entraTenantCount" (num (nat entra_tenant_count)) end)))

-- buildStatusRequestLog
unfoldable pub build_status_request_log : Json → Json → Json
build_status_request_log request upload_id = obj (
    field "event"
      (obj (
        field "type" (str "status_check") (
          field "action" (get request "method") (
            field "category" (get request "path") (
              field "reference" upload_id (
                field "reason"
                  (get (get (get (get (get request "auth") "artifacts") "decoded") "payload")
                    "client_id")
                  end))))))
      end)

-- buildStatusResponseLog, with a duration of whole milliseconds
unfoldable pub build_status_response_log : Json → Json → ℕ → Json
build_status_response_log upload_id upstream duration = obj (
    field "event"
      (obj (
        field "type" (str "status_check") (
          field "outcome" (str "success") (
            field "duration" (num (nat (duration * 1000000))) (
              field "reference" upload_id (
                field "reason" (get upstream "uploadStatus")
                  (field "kind" (num (nat 200)) end)))))))
      end)
