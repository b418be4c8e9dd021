-- ===== src/Tests/Repeated.antt =====
-- A callback whose second file is stored already.
use fcp_sfd_object_processor.Common.{
  String, decimal, ◌≡◌, refl, ◌⊎◌, false, true, List, [], ◌∷◌, map, All, In, ok, err, not_found,
}
use fcp_sfd_object_processor.Json.{str, same}
use fcp_sfd_object_processor.Form.{normalise_form_fields, flatten_form_values}
use fcp_sfd_object_processor.Document.{Document, Stored}
use fcp_sfd_object_processor.Metadata.{
  assert_correlation_id, format_inbound_metadata, document_of, uploads_of,
}
use fcp_sfd_object_processor.Service.{duplicate, raw_file_ids, persist_metadata_with_outbox}
use fcp_sfd_object_processor.Service.Repeated.{persist_metadata_with_outbox-repeated}
use fcp_sfd_object_processor.Tests.Data.{is_some_uuid, payload}
use fcp_sfd_object_processor.Tests.Callback.{env, used_store}

abbrev documents : List Document
documents = map (document_of payload "journey" 2) (uploads_of payload)

formatted : format_inbound_metadata is_some_uuid payload "journey" ≡ ok documents
unfolding format_inbound_metadata assert_correlation_id uploads_of document_of normalise_form_fields
    decimal
formatted = refl

first_file : raw_file_ids env payload ≡ (str "one" ∷ str "two" ∷ [])
unfolding raw_file_ids flatten_form_values
first_file = refl

persist_metadata_with_outbox-repeated_example :
    ((x : Stored) × In x used_store.metadata
      × (same (str "one") x.document.file.file_id ≡ true)
      × (persist_metadata_with_outbox env payload "journey" used_store
          ≡ (ok (duplicate x.document.messaging.correlation_id), used_store)))
    ⊎ (All (λ x. same (str "one") x.document.file.file_id ≡ false) used_store.metadata
        × (m : String) × (persist_metadata_with_outbox env payload "journey" used_store
            ≡ (err (not_found m), used_store)))
unfolding uploads_of document_of normalise_form_fields decimal
persist_metadata_with_outbox-repeated_example =
    persist_metadata_with_outbox-repeated env payload "journey" used_store documents (str "one")
      (str "two" ∷ []) formatted refl refl first_file
