-- ===== src/Service/Repeated.antt =====
-- A callback about files of which some are stored already.
use fcp_sfd_object_processor.Common.{
  ◌+◌, String, ◌≡◌, refl, ◌⊎◌, inl, inr, true, false, none, List, [], ◌∷◌, ◌++◌, All, In, any, find,
  find-In, find-eq-none, Option-cases, ok, err, coded, not_found,
}
use fcp_sfd_object_processor.Json.{Json, get, same}
use fcp_sfd_object_processor.Document.{Document, Stored}
use fcp_sfd_object_processor.Mongo.{any_clash, duplicate_key_error_code}
use fcp_sfd_object_processor.Status.{StatusRecord, validated_status_records}
use fcp_sfd_object_processor.Metadata.{
  format_inbound_metadata, persist_metadata, get_metadata_by_file_id, same_file,
}
use fcp_sfd_object_processor.Service.{
  Env, Store, duplicate, stamped, insert_status, write_all, transaction, settle, raw_file_ids,
  duplicate_of, persist_metadata_with_outbox,
}

module _ (env : Env) where
  any-none : {D : Type 0} (c : List D) → any (λ x. false) c ≡ false
  any-none [] = refl
  any-none (x ∷ c) = any-none c

  any_clash-none : {D : Type 0} (news c : List D) → any_clash (λ a b. false) news c ≡ false
  any_clash-none [] c = refl
  any_clash-none (n ∷ news) c = rw (any-none c, any-none news) (any_clash-none news c)

  insert_status-eq :
      (r : StatusRecord) (records c : List StatusRecord)
      → env.status_db.acknowledged ≡ true
      → (c' : List StatusRecord) × (insert_status env (r ∷ records) c ≡ ok c')
  unfolding insert_status
  insert_status-eq r records c a = (
    c ++ (r ∷ records),
    rw
        (
          env.status_db.insert_many_lem (λ x y. false) (r ∷ records) c,
          any_clash-none (r ∷ records) c,
          a,
        )
        refl,
  )

  first_status :
      (d : Document) (ds : List Document) (c : List StatusRecord)
      → env.status_db.acknowledged ≡ true
      → (c' : List StatusRecord) × (insert_status env
            (validated_status_records env.clock 0 (d ∷ ds))
            c
          ≡ ok c')
  unfolding validated_status_records
  first_status d ds c a =
      insert_status-eq
        (record {
          correlation_id = d.messaging.correlation_id;
          sbi = get d.metadata "sbi";
          file_id = d.file.file_id;
          timestamp = env.clock 0;
          validated = true;
          errors = none;
        })
        (validated_status_records env.clock (0 + 1) ds) c a

  persist_metadata-clash :
      (documents c : List Stored)
      → any_clash same_file documents c ≡ true
      → (m : String) × (persist_metadata env.metadata_db documents c
          ≡ err (coded duplicate_key_error_code m))
  unfolding persist_metadata
  persist_metadata-clash [] c h = absurd (cc h)
  persist_metadata-clash (n ∷ news) c h = (
    "E11000 duplicate key error collection",
    rw (env.metadata_db.insert_many_lem same_file (n ∷ news) c, h) refl,
  )

  write_all-clash :
      (documents : List Document) (s : Store)
      → env.status_db.acknowledged ≡ true
      → any_clash same_file (stamped env.metadata_id 0 documents) s.metadata ≡ true
      → (m : String) × (write_all env documents s ≡ err (coded duplicate_key_error_code m))
  unfolding write_all validated_status_records
  write_all-clash [] s a h = absurd (cc h)
  write_all-clash (d ∷ ds) s a h =
      let (c', e) = first_status d ds s.status a in
      let (m, e') = persist_metadata-clash (stamped env.metadata_id 0 (d ∷ ds)) s.metadata h in
      (m, rw (e, e') refl)

  -- A callback of which some file is stored already, or comes twice, writes nothing, where its
  -- documents can be made and the driver acknowledges writes. The first file of its form decides
  -- the answer: if that file is stored, the callback is answered as a duplicate with the
  -- correlation id of the stored document; if not, it is answered as not found, although the
  -- failure was a duplicate.
  pub persist_metadata_with_outbox-repeated :
      (payload : Json) (correlation_id : String) (s : Store) (documents : List Document) (i : Json)
      (is : List Json)
      → format_inbound_metadata env.is_uuid payload correlation_id ≡ ok documents
      → env.status_db.acknowledged ≡ true
      → any_clash same_file (stamped env.metadata_id 0 documents) s.metadata ≡ true
      → raw_file_ids env payload ≡ (i ∷ is)
      → ((x : Stored) × In x s.metadata
          × (same i x.document.file.file_id ≡ true)
          × (persist_metadata_with_outbox env payload correlation_id s
              ≡ (ok (duplicate x.document.messaging.correlation_id), s)))
        ⊎ (All (λ x. same i x.document.file.file_id ≡ false) s.metadata
            × (m : String) × (persist_metadata_with_outbox env payload correlation_id s
                ≡ (err (not_found m), s)))
  unfolding persist_metadata_with_outbox transaction settle duplicate_of get_metadata_by_file_id
  persist_metadata_with_outbox-repeated payload correlation_id s documents i is f a h r =
      let (m, e) = write_all-clash documents s a h in
      let found = env.metadata_db.find_first_lem (λ x. same i x.document.file.file_id) s.metadata in
      elim (Option-cases (find (λ (x : Stored). same i x.document.file.file_id) s.metadata)) [
        | inl n ↦
            inr (find-eq-none _ s.metadata n, "No documents found", rw (f, e, r, found, n) refl)
        | inr (x, n) ↦
            let (t, q) = find-In _ s.metadata x n in inl (x, t, q, rw (f, e, r, found, n) refl)
      ]
