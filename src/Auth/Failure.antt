-- ===== src/Auth/Failure.antt =====
-- The hook of plugins/auth/index.js on every response, with utils/build-auth-failure-response-log.js:
-- a rejected request is logged and audited. hapi's Boom error is known by its status and message.
use Prim.Native.String
use fcp_sfd_object_processor.Common.{
  ℕ, String, ◌++◌, ◌≡◌, refl, ◌⊎◌, inl, inr, Bool, true, false, not, ◌&&◌, Option, none, some, List,
  [], ◌∷◌, ◌==◌, filter, is_empty_text, if◌then◌else◌, Result, ok, err, message, Bool-cases, arith,
}
use fcp_sfd_object_processor.Common.Results.{◌>>=◌}
use fcp_sfd_object_processor.Json.{
  Json, num, nat, str, arr, obj, end, field, elements, get, truthy, or_else, is_nullish,
  is_the_text, text_of,
}
use fcp_sfd_object_processor.Logs.{join, join_texts, request_agent}
use fcp_sfd_object_processor.Auth.{Entity, document_entity, request_entity, auth_failure_entity}

pub data HookResponse : Type 0 where
  plain : HookResponse
  boom : ℕ → Json → HookResponse

pub record FailureEnv : Type 0 where
  pub tracing_header : String
  pub blob_route_path : String
  pub random_uuid : String
  -- the schema library's test for a v4 UUID
  pub is_uuid : Json → Bool

-- the event of a rejected request
pub record SecurityEvent : Type 0 where
  pub correlation_id : String
  pub message : Json
  pub entity : Entity
  pub path : Json
  pub method : Json

abbrev pub no_join : String
no_join = "tokenGroups.join is not a function"

-- `tokenGroups && `groups=${tokenGroups.join(',')}``
abbrev pub groups_part : Json → Result (List String)
groups_part (arr items) = ok (String.◌++◌ "groups=" (join "," (elements items)) ∷ [])
groups_part v = if truthy v then err (message no_join) else ok []

abbrev pub text_part : String → Json → List String
text_part label v = if truthy v then (String.◌++◌ label (text_of v)) ∷ [] else []

abbrev pub token_payload : Json → Json
token_payload request = get (get (get (get request "auth") "artifacts") "decoded") "payload"

abbrev pub reason_of : Json → Json → List String → String
reason_of request sanitised groups =
    let payload = token_payload request in
    join_texts " | " (
      filter (λ t. not (is_empty_text t))
        (text_of sanitised
          ∷ (groups
              ++ (text_part "clientId=" (get payload "client_id")
                  ++ text_part "issuer=" (get payload "iss")))))

-- buildAuthFailureResponseLog
unfoldable pub build_auth_failure_response_log : Json → Json → Result Json
build_auth_failure_response_log request sanitised = do
  groups ← groups_part (get (token_payload request) "groups")
  ok (
      obj (
        field "event"
          (obj (
            field "type" (str "auth_failure") (
              field "action" (get request "method") (
                field "category" (get request "path") (
                  field "reason" (str (reason_of request sanitised groups))
                    (field "outcome" (str "failure") (field "kind" (num (nat 401)) end)))))))
          (request_agent request)))

abbrev pub trace_id_of : FailureEnv → Json → String
trace_id_of env request =
    if is_nullish (get (get request "headers") env.tracing_header)
    then env.random_uuid
    else text_of (get (get request "headers") env.tracing_header)

abbrev pub security_event : FailureEnv → Json → Json → SecurityEvent
security_event env request sanitised = record {
  correlation_id = trace_id_of env request;
  message = sanitised;
  entity =
      auth_failure_entity env.is_uuid
        (is_the_text (get (get request "route") "path") env.blob_route_path)
        (get (get request "params") "fileId") (trace_id_of env request);
  path = get request "path";
  method = get request "method";
}

abbrev pub with_event : SecurityEvent → Json → Result (Option (Json × SecurityEvent))
with_event event line = ok (some (line, event))

-- The hook on `onPreResponse`: what is logged and audited, if anything, or what it throws.
unfoldable pub on_pre_response :
    FailureEnv → Json → HookResponse → Result (Option (Json × SecurityEvent))
on_pre_response env request plain = ok none
on_pre_response env request (boom status m) =
    if status == 401
    then (build_auth_failure_response_log request (or_else m (str "authentication_failed"))
        >>= with_event (security_event env request (or_else m (str "authentication_failed"))))
    else ok none

abbrev pub is_unauthorised : HookResponse → Bool
is_unauthorised plain = false
is_unauthorised (boom status m) = status == 401

-- The groups of a token are a list, or there are none.
abbrev pub is_group_list : Json → Bool
is_group_list (arr items) = true
is_group_list v = not (truthy v)

no_list-cases :
    (b : Bool)
    → ((not b ≡ true) × (gs : List String) × ((if b then err (message no_join) else ok []) ≡ ok gs))
      ⊎ ((not b ≡ false)
          × (◌≡◌ {A = Result (List String)}
              (if b then err (message no_join) else ok [])
              (err (message no_join))))
no_list-cases true = inr (refl, refl)
no_list-cases false = inl (refl, [], refl)

groups_part-cases :
    (v : Json)
    → ((is_group_list v ≡ true) × (gs : List String) × (groups_part v ≡ ok gs))
      ⊎ ((is_group_list v ≡ false) × (groups_part v ≡ err (message no_join)))
groups_part-cases (arr items) = inl (refl, _, refl)
groups_part-cases v = no_list-cases (truthy v)

-- an entity that the audit library takes: a document by a v4 UUID, or the request by its own event
abbrev pub IsKnown : FailureEnv → SecurityEvent → Entity → Type 0
IsKnown env event (document_entity f) = env.is_uuid f ≡ true
IsKnown env event (request_entity c) = c ≡ event.correlation_id

module _ (env : FailureEnv) (request : Json) where
  entity-IsKnown :
      (event : SecurityEvent) (on_blob_route : Bool) (f : Json)
      → IsKnown env event (auth_failure_entity env.is_uuid on_blob_route f event.correlation_id)
  unfolding auth_failure_entity
  entity-IsKnown event on_blob_route f =
      elim (Bool-cases (on_blob_route && truthy f && env.is_uuid f)) [
        | inl t ↦ rw t (ground (arith, t))
        | inr t ↦ rw t refl
      ]

  security_event-IsKnown :
      (m : Json) → IsKnown env (security_event env request m) (security_event env request m).entity
  security_event-IsKnown m = entity-IsKnown (security_event env request m) _ _

  -- A response with the status 401, and no other, is logged and audited as one security event, with the
  -- identifier of the request's trace and an entity that is a document by a v4
  -- UUID or the request itself. But where the rejected token has groups that are no list, the hook throws
  -- and nothing is audited.
  pub on_pre_response-cases :
      (r : HookResponse)
      → ((is_unauthorised r ≡ false) × (on_pre_response env request r ≡ ok none))
        ⊎ ((is_unauthorised r ≡ true)
            × (is_group_list (get (token_payload request) "groups") ≡ true)
            × (line : Json) × (event : SecurityEvent) × (on_pre_response env request r
                ≡ ok (some (line, event)))
            × (event.correlation_id ≡ trace_id_of env request)
            × IsKnown env event event.entity)
        ⊎ ((is_unauthorised r ≡ true)
            × (is_group_list (get (token_payload request) "groups") ≡ false)
            × (on_pre_response env request r ≡ err (message no_join)))
  unfolding on_pre_response build_auth_failure_response_log
  on_pre_response-cases plain = inl (refl, refl)
  on_pre_response-cases (boom status m) = elim (Bool-cases (status == 401)) [
    | inr t ↦ rw t (inl (refl, refl))
    | inl t ↦ elim (groups_part-cases (get (token_payload request) "groups")) [
      | inr (l, e) ↦ rw (t, e) (inr (inr (refl, l, refl)))
      | inl (l, gs, e) ↦
          rw (t, e)
            (inr (
              inl (
                refl,
                l,
                _,
                _,
                refl,
                refl,
                security_event-IsKnown (or_else m (str "authentication_failed")),
              )))
    ]
  ]
