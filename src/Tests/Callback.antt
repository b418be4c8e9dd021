-- ===== src/Tests/Callback.antt =====
-- Instances of the theorems on the callback: its form, its checks, its journey and what it
-- persists.
use fcp_sfd_object_processor.Common.{
  decimal, ℕ, ◌≡◌, ◌≢◌, ◌⊎◌, ◌↔◌, refl, true, some, List, [], ◌∷◌, ok,
}
use fcp_sfd_object_processor.Json.{str, arr, obj, nil, cons, Fields, end, field, get, is_the_text}
use fcp_sfd_object_processor.Document.{Document}
use fcp_sfd_object_processor.Mongo.Lists.{list_collection}
use fcp_sfd_object_processor.Form.{values, flatten_form_values, normalise_form_fields}
use fcp_sfd_object_processor.Form.Normalise.{values-normalise_form_fields}
use fcp_sfd_object_processor.Metadata.{format_inbound_metadata}
use fcp_sfd_object_processor.Journey.{session, JourneyEnv, resolve_journey_id}
use fcp_sfd_object_processor.Journey.Laws.{IsVouched, IsGenerated, resolve_journey_id-cases}
use fcp_sfd_object_processor.Callback.Validate.{accepted, validate_callback_payload}
use fcp_sfd_object_processor.Callback.Validate.Accepted.{
  AllComplete, validate_callback_payload-accepted_iff,
}
use fcp_sfd_object_processor.Callback.Handler.{metadata_created, handle}
use fcp_sfd_object_processor.Callback.Handler.Responses.{
  Explains, KeepsUploads, resolved, stripped, handle-explained,
}
use fcp_sfd_object_processor.Service.{Env, Store, inserted, persist_metadata_with_outbox}
use fcp_sfd_object_processor.Service.Atomic.{IsPersisted, persist_metadata_with_outbox-atomic}
use fcp_sfd_object_processor.Tests.Data.{is_some_uuid, upload, metadata, payload, document}

abbrev pub env : Env
env = record {
  status_db = list_collection;
  metadata_db = list_collection;
  outbox_db = list_collection;
  is_uuid = is_some_uuid;
  clock = λ n. 1000;
  metadata_id = λ n. n;
  outbox_id = λ n. n;
}

abbrev store : Store
store = record { status = []; metadata = []; outbox = [] }

abbrev jenv : JourneyEnv
jenv = record {
  is_uuid = is_some_uuid;
  session_by_journey_id = λ j. ok (
      some (record {
        upload_id = str "upload";
        journey_id = some j;
        metadata = metadata;
        timestamp = 0;
      }));
  random_uuid = "fresh";
}

persist_metadata_with_outbox-atomic_example :
    ((documents : List Document) × (ids : List ℕ) × (format_inbound_metadata is_some_uuid payload
          "journey"
        ≡ ok documents)
      × ((persist_metadata_with_outbox env payload "journey" store).0 ≡ ok (inserted ids))
      × IsPersisted env documents store
          (persist_metadata_with_outbox env payload "journey" store).1)
    ⊎ (((persist_metadata_with_outbox env payload "journey" store).1 ≡ store)
        × ((ids : List ℕ)
            → (persist_metadata_with_outbox env payload "journey" store).0 ≢ ok (inserted ids)))
persist_metadata_with_outbox-atomic_example =
    persist_metadata_with_outbox-atomic env payload "journey" store

-- the second file of the callback is stored already
abbrev pub used_store : Store
used_store = record {
  status = [];
  metadata = record { id = 9; document = document "two" } ∷ [];
  outbox = [];
}

handle-explained_example :
    ((is_the_text (get (stripped env jenv payload) "uploadStatus") "ready" ≡ true)
      × AllComplete (flatten_form_values (get (stripped env jenv payload) "form"))
      × Explains env
          (stripped env jenv payload)
          (resolved env jenv payload)
          store
          (handle env jenv payload store))
    ⊎ (((n : ℕ) (ids : List ℕ) → (handle env jenv payload store).response ≢ metadata_created n ids)
        × KeepsUploads store (handle env jenv payload store).store)
handle-explained_example = handle-explained env jenv payload store

validate_callback_payload-accepted_iff_example :
    ((validate_callback_payload payload).0 ≡ accepted) ↔ (
      (is_the_text (get payload "uploadStatus") "ready" ≡ true)
      × AllComplete (flatten_form_values (get payload "form")))
validate_callback_payload-accepted_iff_example = validate_callback_payload-accepted_iff payload

resolve_journey_id-cases_example :
    (IsVouched jenv
        (str "journey")
        metadata
        (resolve_journey_id jenv (str "journey") metadata).journey_id
      × ((resolve_journey_id jenv (str "journey") metadata).source ≡ session))
    ⊎ IsGenerated jenv (resolve_journey_id jenv (str "journey") metadata)
resolve_journey_id-cases_example = resolve_journey_id-cases jenv (str "journey") metadata

abbrev grouped : Fields
grouped =
    field "a" (arr (cons (upload "one") (cons (upload "two") nil))) (field "b" (upload "three") end)

values-normalise_form_fields_example :
    values (normalise_form_fields (obj grouped)) ≡ flatten_form_values (obj grouped)
unfolding decimal
values-normalise_form_fields_example =
    values-normalise_form_fields grouped (refl, (refl, (refl, tt)))
