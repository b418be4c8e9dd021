-- ===== src/Initiate/Route.antt =====
-- api/v1/uploader/initiate/index.js: the route around the handler. The server tests each answer
-- against the schema of its status code, if the route has one, and answers with a 500 if it is
-- refused. The payload of an error is made by the error library, which is a parameter.
use Prim.Native.String
use Prim.Native.String.append
use fcp_sfd_object_processor.Common.{
  ℕ, String, ◌≡◌, refl, ◌∙◌, ◌⊎◌, inl, inr, Bool, true, false, Option, none, some, List, [], ◌∷◌,
  ◌++◌, if◌then◌else◌, is_empty_text, Bool-cases, arith,
}
use fcp_sfd_object_processor.Json.{Json, text_of, str, obj, end, field, get, truthy}
use fcp_sfd_object_processor.Journey.{Session}
use fcp_sfd_object_processor.Initiate.{
  InitiateEnv, Initiated, initiated, gateway_timeout, bad_gateway, server_unavailable, initiate,
  new_session, rewrite_response_urls,
}
use fcp_sfd_object_processor.Initiate.Laws.{is_initiated, initiate-cases}
use fcp_sfd_object_processor.Schema.{guid, is_string, is_undefined, Schema}
use fcp_sfd_object_processor.Schema.Joi.{Joi}
use fcp_sfd_object_processor.Schema.Check.{check, accepts-check}
use fcp_sfd_object_processor.Schema.Inversion.{is_string_text, undefined_of}
use fcp_sfd_object_processor.Schema.Payloads.{initiate_success_schema}
use fcp_sfd_object_processor.Schema.Responses.{initiate_responses, generate_response_schemas}
use fcp_sfd_object_processor.Schema.Tables.{find_response}

pub data RouteAnswer : Type 0 where
  answered : Initiated → RouteAnswer
  -- 500
  response_refused : RouteAnswer

abbrev pub status_of : Initiated → ℕ
status_of (initiated u a b) = 200
status_of gateway_timeout = 504
status_of (bad_gateway m) = 502
status_of server_unavailable = 503

abbrev pub body_of : (ℕ → String → Json) → Initiated → Json
body_of boom (initiated u a b) = obj (
    field "data"
      (obj (field "uploadId" u (field "uploadUrl" (str a) (field "statusUrl" (str b) end)))) end)
body_of boom gateway_timeout = boom 504 "Upstream service request timed out"
body_of boom (bad_gateway m) = boom 502 m
body_of boom server_unavailable = boom 503 "Unable to initiate upload session"

-- a status without a schema is not tested
abbrev passes : Joi → Option Schema → Json → Bool
passes joi none body = true
passes joi (some s) body = joi.accepts false end s body

abbrev pub is_response_valid : Joi → (ℕ → String → Json) → Initiated → Bool
is_response_valid joi boom answer =
    passes joi (find_response (status_of answer) initiate_responses) (body_of boom answer)

abbrev respond : Joi → (ℕ → String → Json) → Initiated × List Session → RouteAnswer × List Session
respond joi boom (answer, c) =
    (if is_response_valid joi boom answer then answered answer else response_refused, c)

-- uploaderInitiateRoute
unfoldable pub initiate_route :
    Joi
    → (ℕ → String → Json)
    → InitiateEnv
    → String
    → ℕ
    → Json
    → List Session
    → RouteAnswer × List Session
initiate_route joi boom env journey_id now client c =
    respond joi boom (initiate env journey_id now client c)

-- a text that the schema library takes for a v4 UUID
abbrev pub IsUuid : Joi → Json → Type 0
IsUuid joi u = (t : String) × (u ≡ str t) × (joi.base.is_guid t ≡ true)

abbrev pub is_told : RouteAnswer → Bool
is_told (answered answer) = is_initiated answer
is_told response_refused = false

joined-filled : (s t : String) → is_empty_text t ≡ false → is_empty_text (String.◌++◌ s t) ≡ false
joined-filled String.[] t h = rw (append.nil t) h
joined-filled (String.◌∷◌ c s) t h = rw (append.cons c s t) refl

filled-joined : (s t : String) → is_empty_text s ≡ false → is_empty_text (String.◌++◌ s t) ≡ false
filled-joined String.[] t h = absurd (cc h)
filled-joined (String.◌∷◌ c s) t h = rw (append.cons c s t) refl

defined_of_truthy : (u : Json) → truthy u ≡ true → is_undefined u ≡ false
defined_of_truthy u t = elim (Bool-cases (is_undefined u)) [
  | inr h ↦ h
  | inl h ↦ let e = undefined_of u h in absurd (cc (rw e at t))
]

-- The schema accepts the answer of an initiation exactly if its identifier is a v4 UUID.
success-valid :
    (joi : Joi) (boom : ℕ → String → Json) (u : Json) (a b : String)
    → truthy u ≡ true
    → is_empty_text a ≡ false
    → is_empty_text b ≡ false
    → is_response_valid joi boom (initiated u a b) ≡ is_string joi.base (guid ∷ []) u
unfolding initiate_responses generate_response_schemas check initiate_success_schema
success-valid joi boom u a b t h k =
    let e = accepts-check joi false end initiate_success_schema (body_of boom (initiated u a b)) in
    e ∙ checked
  where
    checked :
        check joi.base false end initiate_success_schema (body_of boom (initiated u a b))
        ≡ is_string joi.base (guid ∷ []) u
    checked = rw (h, k, defined_of_truthy u t) (ground arith)

is_string-IsUuid : (joi : Joi) (u : Json) → is_string joi.base (guid ∷ []) u ≡ true → IsUuid joi u
is_string-IsUuid joi u h =
    let (t, e, _, g) = is_string_text joi.base (guid ∷ []) u h in (t, e, ground arith)

not_string-IsUuid :
    (joi : Joi) (u : Json)
    → truthy u ≡ true
    → is_string joi.base (guid ∷ []) u ≡ false
    → IsUuid joi u
    → ⊥
not_string-IsUuid joi u t h (s, e, g) = ground (arith, rw e at t, rw e at h, g)

module _ (joi : Joi) (boom : ℕ → String → Json) (env : InitiateEnv) (journey_id : String) (now : ℕ)
    (client : Json) (c : List Session) where
  -- the session of an upload that is stored behind the others
  abbrev pub stored_with : Json → List Session
  stored_with u = c ++ (new_session u journey_id (get client "metadata") now ∷ [])

  abbrev pub RouteOutcome : RouteAnswer × List Session → Type 0
  RouteOutcome r =
      ((u : Json) × (a : String) × (b : String) × (r.0 ≡ answered (initiated u a b))
        × IsUuid joi u
        × (r.1 ≡ stored_with u))
      ⊎ (((u : Json) × (r.0 ≡ response_refused)
            × (truthy u ≡ true)
            × (IsUuid joi u → ⊥)
            × (r.1 ≡ stored_with u))
          ⊎ ((is_told r.0 ≡ false) × (r.1 ≡ c)))

  not_told :
      (answer : Initiated)
      → is_initiated answer ≡ false
      → is_told (if is_response_valid joi boom answer then answered answer else response_refused)
        ≡ false
  not_told answer h = elim (Bool-cases (is_response_valid joi boom answer)) [
    | inl v ↦ rw v h
    | inr v ↦ rw v refl
  ]

  initiated-RouteOutcome :
      (u : Json) (cs : List Session)
      → truthy u ≡ true
      → cs ≡ stored_with u
      → RouteOutcome (respond joi boom (rewrite_response_urls env u, cs))
  unfolding rewrite_response_urls
  initiated-RouteOutcome u cs t e =
      let a = String.◌++◌ env.external_url (String.◌++◌ "/upload-and-scan/" (text_of u)) in
      let b = String.◌++◌ env.base_url (String.◌++◌ "/uploader/status/" (text_of u)) in
      let valid =
        success-valid joi boom u a b t
          (joined-filled env.external_url _ (filled-joined "/upload-and-scan/" (text_of u) refl))
          (joined-filled env.base_url _ (filled-joined "/uploader/status/" (text_of u) refl)) in
      elim (Bool-cases (is_string joi.base (guid ∷ []) u)) [
        | inl h ↦ inl (u, a, b, rw (valid, h) refl, is_string-IsUuid joi u h, e)
        | inr h ↦ inr (inl (u, rw (valid, h) refl, t, not_string-IsUuid joi u t h, e))
      ]

  -- Where writes are acknowledged, an initiation has one of three outcomes. The client is told of an
  -- upload, by an identifier that is a v4 UUID, and a session with it, the journey's identifier and
  -- the client's metadata is stored behind the others. Or the upstream service gave an identifier
  -- that is no v4 UUID: the session is stored too, but the schema of the response refuses it, and
  -- the answer is a 500. Or the client is not told of an upload, and the sessions are as they were.
  pub initiate_route-cases :
      env.sessions.acknowledged ≡ true
      → RouteOutcome (initiate_route joi boom env journey_id now client c)
  unfolding initiate_route
  initiate_route-cases k = elim (initiate-cases env journey_id now client c k) [
    | inl (u, e, t, stored) ↦ rw e (initiated-RouteOutcome u _ t stored)
    | inr (other, same_c) ↦ inr (inr (not_told _ other, same_c))
  ]
