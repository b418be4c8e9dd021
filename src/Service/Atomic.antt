-- ===== src/Service/Atomic.antt =====
-- A callback is persisted whole or not at all, and each complete file gets one outbox entry.
use fcp_sfd_object_processor.Common.{
  ℕ, String, ◌≡◌, ◌≢◌, refl, sym, ◌∙◌, ◌⊎◌, inl, inr, Bool, false, List, [], ◌∷◌, ◌++◌, length,
  Result, ok, err, Failure, Result-cases, Bool-cases,
}
use fcp_sfd_object_processor.Json.{Json}
use fcp_sfd_object_processor.Document.{Document, Stored}
use fcp_sfd_object_processor.Mongo.{insert_result, any_clash}
use fcp_sfd_object_processor.Status.{StatusRecord, validated_status_records}
use fcp_sfd_object_processor.Metadata.{format_inbound_metadata, persist_metadata, same_file}
use fcp_sfd_object_processor.Outbox.{new_entries, create_outbox_entries}
use fcp_sfd_object_processor.Outbox.Effects.{create-eq-ok}
use fcp_sfd_object_processor.Service.{
  correlation_of, is_duplicate_key, raw_file_ids, duplicate_of, Env, Store, inserted, stamped,
  fresh_ids, insert_status, write_all, transaction, settle, persist_metadata_with_outbox,
}

pub ok-injective : {A : Type 0} {a b : A} → ok a ≡ ok b → a ≡ b
ok-injective h = cc

module _ (env : Env) where
  insert_result-eq-ok :
      {D : Type 0} (clash : D → D → Bool) (news c c' : List D)
      → insert_result clash news c ≡ ok c'
      → c' ≡ c ++ news
  insert_result-eq-ok clash [] c c' h = absurd (cc h)
  insert_result-eq-ok clash (n ∷ news) c c' h = elim (Bool-cases (any_clash clash (n ∷ news) c)) [
    | inl t ↦ absurd (cc (rw t at h))
    | inr t ↦ sym (ok-injective (rw t at h))
  ]

  insert_status-eq-ok :
      (records c c' : List StatusRecord) → insert_status env records c ≡ ok c' → c' ≡ c ++ records
  unfolding insert_status
  insert_status-eq-ok records c c' h =
      elim (Result-cases (env.status_db.insert_many (λ a b. false) records c)) [
        | inr (f, eq) ↦ absurd (cc (rw eq at h))
        | inl (x, eq) ↦
            let added =
              insert_result-eq-ok (λ a b. false) records c x
                (sym (env.status_db.insert_many_lem (λ a b. false) records c) ∙ eq) in
            elim (Bool-cases env.status_db.acknowledged) [
              | inl t ↦ sym (ok-injective (rw (eq, t) at h)) ∙ added
              | inr t ↦ absurd (cc (rw (eq, t) at h))
            ]
      ]

  pub persist_metadata-eq-ok :
      (documents c c' : List Stored)
      → persist_metadata env.metadata_db documents c ≡ ok c'
      → c' ≡ c ++ documents
  unfolding persist_metadata
  persist_metadata-eq-ok documents c c' h =
      elim (Result-cases (env.metadata_db.insert_many same_file documents c)) [
        | inr (f, eq) ↦ absurd (cc (rw eq at h))
        | inl (x, eq) ↦
            let added =
              insert_result-eq-ok same_file documents c x
                (sym (env.metadata_db.insert_many_lem same_file documents c) ∙ eq) in
            elim (Bool-cases env.metadata_db.acknowledged) [
              | inl t ↦ sym (ok-injective (rw (eq, t) at h)) ∙ added
              | inr t ↦ absurd (cc (rw (eq, t) at h))
            ]
      ]

-- What a callback that succeeds adds to the collections.
pub record IsPersisted (env : Env) (documents : List Document) (s s' : Store) : Type 0 where
  pub status : s'.status ≡ s.status ++ validated_status_records env.clock 0 documents
  pub metadata : s'.metadata ≡ s.metadata ++ stamped env.metadata_id 0 documents
  pub outbox :
      s'.outbox
      ≡ s.outbox
        ++ new_entries
            (env.clock (length documents))
            (fresh_ids env.outbox_id 0 documents)
            (fresh_ids env.metadata_id 0 documents)
            documents

module _ (env : Env) where
  write_all-eq-ok :
      (documents : List Document) (s : Store) (r : List ℕ × Store)
      → write_all env documents s ≡ ok r
      → IsPersisted env documents s r.1
  unfolding write_all
  write_all-eq-ok documents s r h =
      elim (Result-cases
        (insert_status env (validated_status_records env.clock 0 documents) s.status)) [
          | inr (f, eq) ↦ absurd (cc (rw eq at h))
          | inl (status, eq) ↦
              elim (Result-cases (
                persist_metadata env.metadata_db (stamped env.metadata_id 0 documents)
                  s.metadata)) [
                    | inr (f, eq') ↦ absurd (cc (rw (eq, eq') at h))
                    | inl (metadata, eq') ↦
                        elim (Result-cases (
                          create_outbox_entries env.outbox_db (env.clock (length documents))
                            (fresh_ids env.outbox_id 0 documents)
                            (fresh_ids env.metadata_id 0 documents) documents s.outbox)) [
                              | inr (f, eq'') ↦ absurd (cc (rw (eq, eq', eq'') at h))
                              | inl (x, eq'') ↦
                                  let same = ok-injective (rw (eq, eq', eq'') at h) in
                                  rw (← same) (record {
                                    status = insert_status-eq-ok env _ s.status status eq;
                                    metadata = persist_metadata-eq-ok env _ s.metadata metadata eq';
                                    outbox =
                                        create-eq-ok env.outbox_db _ _ _ documents s.outbox x eq'';
                                  })
                            ]
                  ]
        ]

  correlation_of-not_inserted :
      (r : Result Stored) (ids : List ℕ) → correlation_of env r ≡ ok (inserted ids) → ⊥
  correlation_of-not_inserted (ok s) ids h = absurd (cc h)
  correlation_of-not_inserted (err f) ids h = absurd (cc h)

  pub settle-failed :
      (payload : Json) (s : Store) (f : Failure)
      → ((settle env payload s (err f)).1 ≡ s)
        × ((ids : List ℕ) → (settle env payload s (err f)).0 ≡ ok (inserted ids) → ⊥)
  unfolding settle duplicate_of
  settle-failed payload s f = elim (Bool-cases (is_duplicate_key env f)) [
    | inr t ↦ rw t (refl, λ ids h. absurd (cc h))
    | inl t ↦ rw t (refl, λ ids h. looked_up (raw_file_ids env payload) ids h)
  ]
    where
      looked_up : (is : List Json) (ids : List ℕ) → duplicate_of env f is s ≡ ok (inserted ids) → ⊥
      looked_up [] ids h = absurd (cc h)
      looked_up (i ∷ is) ids h = correlation_of-not_inserted _ ids h

  -- Either the answer is the new identifiers, and the status records, the documents and the outbox
  -- entries of the payload's files were added together; or the answer is a duplicate or an error,
  -- and nothing was written.
  pub persist_metadata_with_outbox-atomic :
      (payload : Json) (correlation_id : String) (s : Store)
      → ((documents : List Document) × (ids : List ℕ) × (format_inbound_metadata env.is_uuid payload
              correlation_id
            ≡ ok documents)
          × ((persist_metadata_with_outbox env payload correlation_id s).0 ≡ ok (inserted ids))
          × IsPersisted env documents s
              (persist_metadata_with_outbox env payload correlation_id s).1)
        ⊎ (((persist_metadata_with_outbox env payload correlation_id s).1 ≡ s)
            × ((ids : List ℕ)
                → (persist_metadata_with_outbox env payload correlation_id s).0
                  ≢ ok (inserted ids)))
  unfolding persist_metadata_with_outbox settle transaction
  persist_metadata_with_outbox-atomic payload correlation_id s =
      elim (Result-cases (format_inbound_metadata env.is_uuid payload correlation_id)) [
        | inr (f, eq) ↦ inr (rw eq (settle-failed payload s f))
        | inl (documents, eq) ↦ elim (Result-cases (write_all env documents s)) [
          | inr (f, eq') ↦ inr (rw (eq, eq') (settle-failed payload s f))
          | inl (r, eq') ↦
              inl
                (documents, r.0, eq, rw (eq, eq'), rw (eq, eq') (write_all-eq-ok documents s r eq'))
        ]
      ]
