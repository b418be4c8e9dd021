-- ===== src/Callback/Handler.antt =====
-- api/v1/callback/index.js and validation/handle-validation-failure.js: the route's handler, and
-- its failAction for a payload that the schema refuses. Log lines are not modelled.
pub mod Responses
use Prim.Native.String
use fcp_sfd_object_processor.Common.{
  ℕ, zero, suc, ◌+◌, String, Bool, true, false, Option, none, some, List, [], ◌∷◌, ◌++◌, map,
  length, if◌then◌else◌, Result, ok, err, Failure,
}
use fcp_sfd_object_processor.Json.{Json, undefined, str, obj, Fields, end, put_field, get}
use fcp_sfd_object_processor.Journey.{JourneyEnv, Resolution, split_journey_id, resolve_journey_id}
use fcp_sfd_object_processor.Status.{ValidationError, file_ids_of_payload}
use fcp_sfd_object_processor.Audit.{
  AuditEvent, Action, created, failed, AuditStatus, success, failure, build_audit_accounts,
}
use fcp_sfd_object_processor.Service.{
  Env, Store, Persisted, inserted, duplicate, persist_metadata_with_outbox,
  persist_validation_failure_status,
}
use fcp_sfd_object_processor.Callback.Validate.{
  Verdict, accepted, refused, Counter, validation_failures, journey_id_unresolved,
  validate_callback_payload,
}

pub data Response : Type 0 where
  -- 201, the message `Metadata created` with the count and the identifiers
  metadata_created : ℕ → List ℕ → Response
  -- 201
  validation_failure_persisted : Response
  -- 200
  duplicate_ignored : Response
  -- 500
  internal : Failure → Response

abbrev pub status_code : Response → ℕ
status_code (metadata_created n ids) = 201
status_code validation_failure_persisted = 201
status_code duplicate_ignored = 200
status_code (internal f) = 500

-- A response, what is stored afterwards, the audit events that were sent, in order, the identifier
-- of the journey, and the counters that were incremented.
pub record Handled : Type 0 where
  pub response : Response
  pub store : Store
  pub audits : List AuditEvent
  pub correlation_id : String
  pub counters : List Counter

-- an ES spread with `metadata` given anew
abbrev pub with_metadata : Json → Json → Json
with_metadata (obj fs) m = obj (put_field "metadata" m fs)
with_metadata payload m = obj (put_field "metadata" m end)

-- resolveCallbackCorrelation: the identifier, and the payload without it
unfoldable pub resolve_callback_correlation : JourneyEnv → Json → Resolution × Json
resolve_callback_correlation jenv payload =
    let (raw, metadata) = split_journey_id (get payload "metadata") in
    (resolve_journey_id jenv raw metadata, with_metadata payload metadata)

abbrev unresolved : Resolution → List Counter
unresolved r = if r.counted then journey_id_unresolved ∷ [] else []

-- one event for each file of the payload
abbrev pub audit_event : Json → String → Action → AuditStatus → String → Json → AuditEvent
audit_event payload correlation_id action status reason file_id = record {
  correlation_id = correlation_id;
  action = action;
  entity_id = file_id;
  accounts =
      build_audit_accounts (get (get payload "metadata") "sbi")
        (get (get payload "metadata") "crn");
  status = status;
  reason = reason;
  code = none;
  attempts = none;
}

unfoldable pub audit_events : Json → String → Action → AuditStatus → String → List AuditEvent
audit_events payload correlation_id action status reason =
    map (audit_event payload correlation_id action status reason) (file_ids_of_payload payload)

module _ (env : Env) (jenv : JourneyEnv) where
  -- handleValidationFailure: an error of the store is logged, and the answer is the same
  unfoldable pub handle_validation_failure : Json → String → String → Store → Response × Store
  handle_validation_failure payload text correlation_id s =
      let (result, s') =
        persist_validation_failure_status env payload
          (record { message = str text; details = undefined }) correlation_id s in
      (validation_failure_persisted, s')

  abbrev answer_persisted : Json → String → List Counter → Result Persisted × Store → Handled
  answer_persisted request_payload correlation_id counters (ok (duplicate other), s) = record {
    response = duplicate_ignored;
    store = s;
    audits = [];
    correlation_id = correlation_id;
    counters = counters;
  }
  answer_persisted request_payload correlation_id counters (ok (inserted ids), s) = record {
    response = metadata_created (length ids) ids;
    store = s;
    audits = audit_events request_payload correlation_id created success "callback_successful";
    correlation_id = correlation_id;
    counters = counters;
  }
  answer_persisted request_payload correlation_id counters (err f, s) = record {
    response = internal f;
    store = s;
    audits =
        audit_events request_payload correlation_id failed failure "callback_processing_failure";
    correlation_id = correlation_id;
    counters = counters;
  }

  abbrev answer_verdict : Json → Json → String → List Counter → Store → Verdict → Handled
  answer_verdict request_payload payload correlation_id counters s (refused text file) =
      let (response, s') = handle_validation_failure payload text correlation_id s in
      record {
        response = response;
        store = s';
        audits = [];
        correlation_id = correlation_id;
        counters = counters;
      }
  answer_verdict request_payload payload correlation_id counters s accepted =
      answer_persisted request_payload correlation_id counters
        (persist_metadata_with_outbox env payload correlation_id s)

  -- the handler, for a payload that the schema accepts
  pub handle : Json → Store → Handled
  handle request_payload s =
      let (resolution, payload) = resolve_callback_correlation jenv request_payload in
      let (verdict, counters) = validate_callback_payload payload in
      answer_verdict request_payload payload resolution.journey_id
        (unresolved resolution ++ counters) s verdict

  -- the failAction, for a payload that the schema refuses with an error
  pub handle_schema_failure : Json → ValidationError → Store → Handled
  handle_schema_failure request_payload e s =
      let (resolution, payload) = resolve_callback_correlation jenv request_payload in
      let (result, s') = persist_validation_failure_status env payload e resolution.journey_id s in
      record {
        response = validation_failure_persisted;
        store = s';
        audits =
            audit_events request_payload resolution.journey_id failed failure
              "payload_validation_failure";
        correlation_id = resolution.journey_id;
        counters = unresolved resolution ++ (validation_failures ∷ []);
      }
