-- ===== src/Tests/Failure.antt =====
-- A request to a blob that was rejected with 401.
use fcp_sfd_object_processor.Common.{◌≡◌, refl, ◌⊎◌, true, false, none, some, ok, err, message}
use fcp_sfd_object_processor.Json.{Json, null, str, obj, end, field, get}
use fcp_sfd_object_processor.Auth.Failure.{
  FailureEnv, HookResponse, boom, SecurityEvent, on_pre_response, is_unauthorised, is_group_list,
  token_payload, trace_id_of, no_join, IsKnown, on_pre_response-cases,
  build_auth_failure_response_log,
}

abbrev failure_env : FailureEnv
failure_env = record {
  tracing_header = "x-cdp-request-id";
  blob_route_path = "/api/v1/blob/{fileId}";
  random_uuid = "fresh";
  is_uuid = λ v. true;
}

abbrev rejected : HookResponse
rejected = boom 401 (str "Unauthorized")

abbrev request_with : Json → Json
request_with groups = obj (
    field "path" (str "/api/v1/blob/one") (
      field "route" (obj (field "path" (str "/api/v1/blob/{fileId}") end)) (
        field "params" (obj (field "fileId" (str "one") end)) (
          field "auth"
            (obj (
              field "artifacts"
                (obj (
                  field "decoded" (obj (field "payload" (obj (field "groups" groups end)) end))
                    end))
                end))
            end))))

on_pre_response-cases_example :
    ((is_unauthorised rejected ≡ false)
      × (on_pre_response failure_env (request_with null) rejected ≡ ok none))
    ⊎ ((is_unauthorised rejected ≡ true)
        × (is_group_list (get (token_payload (request_with null)) "groups") ≡ true)
        × (line : Json) × (event : SecurityEvent) × (on_pre_response failure_env
              (request_with null)
              rejected
            ≡ ok (some (line, event)))
        × (event.correlation_id ≡ trace_id_of failure_env (request_with null))
        × IsKnown failure_env event event.entity)
    ⊎ ((is_unauthorised rejected ≡ true)
        × (is_group_list (get (token_payload (request_with null)) "groups") ≡ false)
        × (on_pre_response failure_env (request_with null) rejected ≡ err (message no_join)))
on_pre_response-cases_example = on_pre_response-cases failure_env (request_with null) rejected

-- groups that are one text
groups_text :
    on_pre_response failure_env (request_with (str "group")) rejected ≡ err (message no_join)
unfolding on_pre_response build_auth_failure_response_log
groups_text = refl
