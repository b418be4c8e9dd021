-- ===== src/Tests/Initiate.antt =====
-- Instances of the theorems on the initiation of an upload.
use fcp_sfd_object_processor.Common.{ℕ, ◌≡◌, refl, String, true, false, some, List, [], ◌∷◌}
use fcp_sfd_object_processor.Json.{Json, str, num, nat, obj, end, field, get}
use fcp_sfd_object_processor.Mongo.Lists.{list_collection}
use fcp_sfd_object_processor.Journey.{split_journey_id, Session, session, resolve_journey_id}
use fcp_sfd_object_processor.Initiate.{
  responded, InitiateEnv, new_session, rewrite_response_urls, session_clash, insert_session,
  build_cdp_uploader_payload, initiate,
}
use fcp_sfd_object_processor.Initiate.Laws.{is_initiated, journey_env, initiate-resolves}
use fcp_sfd_object_processor.Initiate.Route.{
  response_refused, initiate_route, RouteOutcome, initiate_route-cases,
}
use fcp_sfd_object_processor.Formats.Patterns.{is_uuid}
use fcp_sfd_object_processor.Schema.Joi.{Joi}
use fcp_sfd_object_processor.Schema.Check.{check, checking}
use fcp_sfd_object_processor.Schema.Payloads.{initiate_success_schema}
use fcp_sfd_object_processor.Schema.Responses.{initiate_responses, generate_response_schemas}
use fcp_sfd_object_processor.Tests.Data.{is_some_uuid}

abbrev env : InitiateEnv
env = record {
  sessions = list_collection;
  bucket = str "bucket";
  path = str "path";
  callback_url = str "http://localhost/api/v1/callback";
  mime_types = str "application/pdf";
  max_file_size = num (nat 10000000);
  external_url = "http://uploader";
  base_url = "/api/v1";
  fetch = λ request. responded 200 (some (obj (field "uploadId" (str "upload") end)));
}

abbrev client : Json
client = obj (
    field "redirect" (str "/") (
      field "metadata"
        (obj (field "sbi" (num (nat 105000000)) (field "submissionId" (str "1733826312") end)))
        end))

abbrev journey_id : String
journey_id = "0c4ef4a6-9f6c-4d5f-8f0e-0d6f3a6f9d11"

initiated-told : is_initiated (initiate env journey_id 1000 client []).0 ≡ true
unfolding initiate insert_session session_clash rewrite_response_urls
initiated-told = refl

-- The names of the errors and their payloads are those of the error library.
abbrev boom : ℕ → String → Json
boom status text = obj (field "statusCode" (num (nat status)) (field "message" (str text) end))

-- the upstream's identifier is no UUID, so the session is stored and the answer refused
abbrev joi : Joi
joi = checking (record { is_guid = is_uuid; converted = λ k s. str s; own_keys = λ n. end })

initiate_route-cases_example :
    RouteOutcome joi boom env journey_id 1000 client []
      (initiate_route joi boom env journey_id 1000 client [])
initiate_route-cases_example = initiate_route-cases joi boom env journey_id 1000 client [] refl

refused_after_insertion :
    initiate_route joi boom env journey_id 1000 client []
    ≡ (response_refused, new_session (str "upload") journey_id (get client "metadata") 1000 ∷ [])
unfolding initiate_route initiate insert_session session_clash rewrite_response_urls
    initiate_responses generate_response_schemas checking check initiate_success_schema is_uuid
refused_after_insertion = refl

abbrev stored : List Session
stored = (initiate env journey_id 1000 client []).1

abbrev carried : Json
carried = get (build_cdp_uploader_payload env client journey_id) "metadata"

initiate-resolves_example :
    resolve_journey_id
      (journey_env env.sessions stored is_some_uuid "fresh")
      (split_journey_id carried).0
      (split_journey_id carried).1
    ≡ record { journey_id = journey_id; source = session; counted = false }
initiate-resolves_example =
    initiate-resolves env journey_id 1000 client [] is_some_uuid "fresh" refl refl refl tt refl refl
      initiated-told
