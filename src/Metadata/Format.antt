-- ===== src/Metadata/Format.antt =====
-- What the documents of a callback and the pages of a read hold.
use fcp_sfd_object_processor.Common.{
  ℕ, ◌≡◌, refl, ap, inl, inr, String, Bool, true, none, List, [], ◌∷◌, map, length, length-map,
  Bool-cases, All, ok, err, Failure, ◌⊎◌, false,
}
use fcp_sfd_object_processor.Json.{Json, get}
use fcp_sfd_object_processor.Document.{Document}
use fcp_sfd_object_processor.Metadata.{
  assert_correlation_id, uploads_of, document_of, format_inbound_metadata,
}

-- the identifier of the file, the journey and the size of the batch
abbrev pub IsOf : String → ℕ → Document → Type 0
IsOf correlation_id n d =
    (d.messaging.correlation_id ≡ correlation_id)
    × (d.messaging.files_in_batch ≡ n)
    × (d.messaging.published_at ≡ none)

documents-IsOf :
    (payload : Json) (correlation_id : String) (n : ℕ) (us : List Json)
    → All (IsOf correlation_id n) (map (document_of payload correlation_id n) us)
unfolding document_of
documents-IsOf payload correlation_id n [] = tt
documents-IsOf payload correlation_id n (u ∷ us) =
    ((refl, refl, refl), documents-IsOf payload correlation_id n us)

file_ids-documents :
    (payload : Json) (correlation_id : String) (n : ℕ) (us : List Json)
    → map (λ (d : Document). d.file.file_id) (map (document_of payload correlation_id n) us)
      ≡ map (λ u. get u "fileId") us
unfolding document_of
file_ids-documents payload correlation_id n [] = refl
file_ids-documents payload correlation_id n (u ∷ us) =
    ap (λ r. get u "fileId" ∷ r) (file_ids-documents payload correlation_id n us)

-- A payload is refused exactly when the correlation id is no v4 UUID. Otherwise there is one
-- document for each upload of the form, in order, with the upload's file identifier; each carries
-- the correlation id and the number of documents, and none has been published.
pub format_inbound_metadata-documents :
    (is_uuid : String → Bool) (payload : Json) (correlation_id : String)
    → ((is_uuid correlation_id ≡ true)
        × (ds : List Document) × (format_inbound_metadata is_uuid payload correlation_id ≡ ok ds)
        × (map (λ (d : Document). d.file.file_id) ds
            ≡ map (λ u. get u "fileId") (uploads_of payload))
        × All (IsOf correlation_id (length ds)) ds)
      ⊎ ((is_uuid correlation_id ≡ false)
          × (f : Failure) × (format_inbound_metadata is_uuid payload correlation_id ≡ err f))
unfolding format_inbound_metadata assert_correlation_id
format_inbound_metadata-documents is_uuid payload correlation_id =
    elim (Bool-cases (is_uuid correlation_id)) [
      | inr t ↦ rw t (inr (refl, _, refl))
      | inl t ↦
          let n = length (uploads_of payload) in
          inl (
            t,
            map (document_of payload correlation_id n) (uploads_of payload),
            rw t refl,
            file_ids-documents payload correlation_id n (uploads_of payload),
            rw (length-map (document_of payload correlation_id n) (uploads_of payload))
                (documents-IsOf payload correlation_id n (uploads_of payload)),
          )
    ]
