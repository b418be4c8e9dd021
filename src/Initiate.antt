-- ===== src/Initiate.antt =====
-- api/v1/uploader/initiate/index.js and repos/sessions.js: how an upload is initiated, for a
-- payload that the schema accepts.
pub mod Laws
pub mod Route
use Prim.Native.String
use fcp_sfd_object_processor.Common.{
  ℕ, String, Bool, true, false, ◌&&◌, not, Option, none, some, List, [], ◌∷◌, leb, decimal, str_eq,
  is_empty_text, if◌then◌else◌, Result, ok, err, Failure, message, find,
}
use fcp_sfd_object_processor.Common.Results.{◌>>=◌}
use fcp_sfd_object_processor.Json.{
  Json, str, obj, Fields, end, field, put_field, get, truthy, same, text_of,
}
use fcp_sfd_object_processor.Journey.{journey_id_key, own_fields, Session}
use fcp_sfd_object_processor.Mongo.{Collection}

-- what the HTTP client does: it throws, after a timeout or for another reason, or it responds with
-- a status and a body, none where the body is no JSON
pub data Fetched : Type 0 where
  timed_out broken : Fetched
  responded : ℕ → Option Json → Fetched

pub record InitiateEnv : Type 0 where
  pub sessions : Collection Session
  pub bucket : Json
  pub path : Json
  pub callback_url : Json
  pub mime_types : Json
  pub max_file_size : Json
  -- `uploaderExternalUrl || uploaderUrl`
  pub external_url : String
  pub base_url : String
  -- the request is known by its payload
  pub fetch : Json → Fetched

pub data Initiated : Type 0 where
  -- 200, with the upload's identifier, its URL and that of its status
  initiated : Json → String → String → Initiated
  gateway_timeout : Initiated
  bad_gateway : String → Initiated
  server_unavailable : Initiated

-- The unique indexes of the collection (data/db.js); that on the journey identifier is sparse.
abbrev same_journey : Option String → Option String → Bool
same_journey (some a) (some b) = str_eq a b
same_journey _ _ = false

unfoldable pub session_clash : Session → Session → Bool
session_clash a b =
    if same a.upload_id b.upload_id then true else same_journey a.journey_id b.journey_id

abbrev pub has_journey : String → Session → Bool
has_journey j s = same_journey (some j) s.journey_id

-- getSessionByJourneyId, but for its projection
unfoldable pub session_by_journey_id :
    Collection Session → List Session → String → Result (Option Session)
session_by_journey_id db c j = ok (db.find_first (has_journey j) c)

abbrev pub new_session : Json → String → Json → ℕ → Session
new_session upload_id journey_id metadata now = record {
  upload_id = upload_id;
  journey_id = if is_empty_text journey_id then none else some journey_id;
  metadata = metadata;
  timestamp = now;
}

-- insertSession: whether it throws, and the sessions afterwards. `insertOne` is an insertion of one
-- document, and stands outside a transaction.
unfoldable pub insert_session : Collection Session → Session → List Session → Bool × List Session
insert_session db s c = elim (db.insert_many session_clash (s ∷ []) c) [
  | err f ↦ (true, c)
  | ok c' ↦ (not db.acknowledged, c')
]

-- the client's metadata with the journey identifier
abbrev pub enriched : Json → String → Json
enriched metadata journey_id = obj (put_field journey_id_key (str journey_id) (own_fields metadata))

-- buildCdpUploaderPayload
unfoldable pub build_cdp_uploader_payload : InitiateEnv → Json → String → Json
build_cdp_uploader_payload env client journey_id = obj (
    field "redirect" (get client "redirect") (
      field "s3Bucket" env.bucket (
        field "s3Path" env.path (
          field "callback" env.callback_url (
            field "mimeTypes" env.mime_types (
              field "maxFileSize" env.max_file_size
                (field "metadata" (enriched (get client "metadata") journey_id) end)))))))

-- rewriteResponseUrls
unfoldable pub rewrite_response_urls : InitiateEnv → Json → Initiated
rewrite_response_urls env upload_id =
    initiated upload_id
      (String.◌++◌ env.external_url (String.◌++◌ "/upload-and-scan/" (text_of upload_id)))
      (String.◌++◌ env.base_url (String.◌++◌ "/uploader/status/" (text_of upload_id)))

abbrev pub settle_session : Initiated → Bool × List Session → Initiated × List Session
settle_session data_sent (true, c) = (server_unavailable, c)
settle_session data_sent (false, c) = (data_sent, c)

abbrev pub answer_body :
    InitiateEnv → String → ℕ → Json → List Session → Option Json → Initiated × List Session
answer_body env journey_id now client c none =
    (bad_gateway "Invalid response from Upstream service", c)
answer_body env journey_id now client c (some body) =
    if truthy (get body "uploadId")
    then settle_session (rewrite_response_urls env (get body "uploadId")) (
        insert_session env.sessions
          (new_session (get body "uploadId") journey_id (get client "metadata") now) c)
    else (bad_gateway "Invalid response from Upstream service", c)

abbrev pub answer_fetched :
    InitiateEnv → String → ℕ → Json → List Session → Fetched → Initiated × List Session
answer_fetched env journey_id now client c timed_out = (gateway_timeout, c)
answer_fetched env journey_id now client c broken =
    (bad_gateway "Upstream service request failed", c)
answer_fetched env journey_id now client c (responded status body) =
    if leb 200 status && leb status 299
    then answer_body env journey_id now client c body
    else (bad_gateway (String.◌++◌ "Upstream service returned " (decimal status)), c)

-- the handler, before its answer is tested: `journey_id` is what `randomUUID` returned
unfoldable pub initiate : InitiateEnv → String → ℕ → Json → List Session → Initiated × List Session
initiate env journey_id now client c =
    answer_fetched env journey_id now client c
      (env.fetch (build_cdp_uploader_payload env client journey_id))
