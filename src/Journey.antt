-- ===== src/Journey.antt =====
-- utils/split-journey-id.js and services/journey-correlation-service.js: the identifier that joins
-- a callback to the request that initiated the upload.
pub mod Laws
use fcp_sfd_object_processor.Common.{
  ℕ, String, Bool, true, false, ◌&&◌, Option, none, some, if◌then◌else◌, Result, ok, err,
}
use fcp_sfd_object_processor.Json.{
  Json, obj, str, Fields, end, field, find_field, remove_field, get, same,
}

abbrev pub journey_id_key : String
journey_id_key = "journeyId"

-- The own keys of the metadata, which is an object; other values have none here.
abbrev pub own_fields : Json → Fields
own_fields (obj fs) = fs
own_fields _ = end

-- splitJourneyId: the identifier, `undefined` if there is none, and the metadata without it
unfoldable pub split_journey_id : Json → Json × Json
split_journey_id metadata = (
  find_field journey_id_key (own_fields metadata),
  obj (remove_field journey_id_key (own_fields metadata)),
)

-- a record of the sessions collection
pub record Session : Type 0 where
  pub upload_id : Json
  pub journey_id : Option String
  pub metadata : Json
  pub timestamp : ℕ

pub data Source : Type 0 where
  session generated : Source

-- the identifier, where it is from, and whether the unresolved counter was incremented
pub record Resolution : Type 0 where
  pub journey_id : String
  pub source : Source
  pub counted : Bool

-- The test of the schema library for a v4 UUID, the session lookup, which may be rejected, and the
-- identifier that `randomUUID` would return.
pub record JourneyEnv : Type 0 where
  pub is_uuid : String → Bool
  pub session_by_journey_id : String → Result (Option Session)
  pub random_uuid : String

abbrev generate : JourneyEnv → Resolution
generate env = record { journey_id = env.random_uuid; source = generated; counted = true }

abbrev matches_session : Session → Json → Bool
matches_session s metadata =
    same (get s.metadata "sbi") (get metadata "sbi")
    && same (get s.metadata "submissionId") (get metadata "submissionId")

-- what follows the lookup
abbrev resolve_found : JourneyEnv → String → Json → Result (Option Session) → Resolution
resolve_found env raw metadata (err f) = generate env
resolve_found env raw metadata (ok none) = generate env
resolve_found env raw metadata (ok (some s)) =
    if matches_session s metadata
    then record { journey_id = raw; source = session; counted = false }
    else generate env

-- resolveJourneyId
unfoldable pub resolve_journey_id : JourneyEnv → Json → Json → Resolution
resolve_journey_id env (str raw) metadata =
    if env.is_uuid raw
    then resolve_found env raw metadata (env.session_by_journey_id raw)
    else generate env
resolve_journey_id env raw metadata = generate env
