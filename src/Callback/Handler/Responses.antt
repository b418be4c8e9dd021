-- ===== src/Callback/Handler/Responses.antt =====
-- What the callback's answer says of what was stored.
use fcp_sfd_object_processor.Common.{
  ℕ, String, ◌≡◌, ◌≢◌, refl, ◌⊎◌, inl, inr, true, List, ◌++◌, length, Result, ok, err,
}
use fcp_sfd_object_processor.Json.{Json, get, is_the_text}
use fcp_sfd_object_processor.Form.{flatten_form_values}
use fcp_sfd_object_processor.Document.{Document}
use fcp_sfd_object_processor.Journey.{JourneyEnv}
use fcp_sfd_object_processor.Status.{StatusRecord, ValidationError}
use fcp_sfd_object_processor.Metadata.{format_inbound_metadata}
use fcp_sfd_object_processor.Service.{
  Env, Store, Persisted, inserted, duplicate, persist_metadata_with_outbox,
  persist_validation_failure_status, keep_status,
}
use fcp_sfd_object_processor.Service.Atomic.{IsPersisted, persist_metadata_with_outbox-atomic}
use fcp_sfd_object_processor.Callback.Validate.{
  Verdict, accepted, refused, Counter, validate_callback_payload,
}
use fcp_sfd_object_processor.Callback.Validate.Accepted.{
  AllComplete, validate_callback_payload-accepted_iff,
}
use fcp_sfd_object_processor.Callback.Handler.{
  metadata_created, Handled, resolve_callback_correlation, handle_validation_failure, unresolved,
  answer_persisted, answer_verdict, handle,
}

-- The documents and the outbox are as they were.
abbrev pub KeepsUploads : Store → Store → Type 0
KeepsUploads s s' = (s'.metadata ≡ s.metadata) × (s'.outbox ≡ s.outbox)

keep_status-KeepsUploads :
    (env : Env) (s : Store) (r : Result (List StatusRecord))
    → KeepsUploads s (keep_status env s r).1
keep_status-KeepsUploads env s (ok status) = (refl, refl)
keep_status-KeepsUploads env s (err f) = (refl, refl)

persist_validation_failure_status-KeepsUploads :
    (env : Env) (payload : Json) (e : ValidationError) (correlation_id : String) (s : Store)
    → KeepsUploads s (persist_validation_failure_status env payload e correlation_id s).1
unfolding persist_validation_failure_status
persist_validation_failure_status-KeepsUploads env payload e correlation_id s =
    keep_status-KeepsUploads env s _

-- What is known of a callback that was answered.
abbrev pub Explains : Env → Json → String → Store → Handled → Type 0
Explains env payload correlation_id s h =
    ((documents : List Document) × (ids : List ℕ) × (h.response ≡ metadata_created (length ids) ids)
      × (format_inbound_metadata env.is_uuid payload correlation_id ≡ ok documents)
      × IsPersisted env documents s h.store)
    ⊎ (((n : ℕ) (ids : List ℕ) → h.response ≢ metadata_created n ids) × KeepsUploads s h.store)

module _ (env : Env) (jenv : JourneyEnv) where
  persisted-Explains :
      (request_payload payload : Json) (correlation_id : String) (counters : List Counter)
      (s : Store) (r : Result Persisted × Store)
      → ((documents : List Document) × (ids : List ℕ) × (format_inbound_metadata env.is_uuid payload
              correlation_id
            ≡ ok documents)
          × (r.0 ≡ ok (inserted ids))
          × IsPersisted env documents s r.1)
        ⊎ ((r.1 ≡ s) × ((ids : List ℕ) → r.0 ≡ ok (inserted ids) → ⊥))
      → Explains env payload correlation_id s
          (answer_persisted env jenv request_payload correlation_id counters r)
  persisted-Explains request_payload payload correlation_id counters s (ok (inserted ids), s') c =
      elim c [
        | inl (ds, is, f, eq, p) ↦ inl (ds, ids, refl, f, p)
        | inr (same, n) ↦ absurd (n ids refl)
      ]
  persisted-Explains request_payload payload correlation_id counters s (ok (duplicate other), s')
        c =
      elim c [
        | inl (ds, is, f, eq, p) ↦ absurd (cc eq)
        | inr (same, n) ↦ inr ((λ k is e. cc e), rw same (refl, refl))
      ]
  persisted-Explains request_payload payload correlation_id counters s (err f, s') c = elim c [
    | inl (ds, is, g, eq, p) ↦ absurd (cc eq)
    | inr (same, n) ↦ inr ((λ k is e. cc e), rw same (refl, refl))
  ]

  abbrev pub resolved : Json → String
  resolved request_payload = (resolve_callback_correlation jenv request_payload).0.journey_id

  abbrev pub stripped : Json → Json
  stripped request_payload = (resolve_callback_correlation jenv request_payload).1

  verdict-Explains :
      (request_payload payload : Json) (correlation_id : String) (counters : List Counter)
      (s : Store) (v : Verdict)
      → ((v ≡ accepted)
          × Explains env payload correlation_id s
              (answer_verdict env jenv request_payload payload correlation_id counters s v))
        ⊎ (((n : ℕ) (ids : List ℕ)
              → (answer_verdict env jenv request_payload payload correlation_id counters s
                  v).response
                ≡ metadata_created n ids
              → ⊥)
            × KeepsUploads s
                (answer_verdict env jenv request_payload payload correlation_id counters s v).store)
  unfolding handle_validation_failure
  verdict-Explains request_payload payload correlation_id counters s accepted = inl (
    refl,
    persisted-Explains request_payload payload correlation_id counters s
        (persist_metadata_with_outbox env payload correlation_id s)
        (persist_metadata_with_outbox-atomic env payload correlation_id s),
  )
  verdict-Explains request_payload payload correlation_id counters s (refused text file) = inr (
    (λ n ids e. cc e),
    persist_validation_failure_status-KeepsUploads env payload _ correlation_id s,
  )

  -- A callback is answered with 201 and the message that metadata was created only where the upload
  -- was ready and all of its files were complete, and then the documents, the status records and
  -- the outbox entries of these files were added. After every other answer the documents and the
  -- outbox are as they were.
  pub handle-explained :
      (request_payload : Json) (s : Store)
      → ((is_the_text (get (stripped request_payload) "uploadStatus") "ready" ≡ true)
          × AllComplete (flatten_form_values (get (stripped request_payload) "form"))
          × Explains env
              (stripped request_payload)
              (resolved request_payload)
              s
              (handle env jenv request_payload s))
        ⊎ (((n : ℕ) (ids : List ℕ)
              → (handle env jenv request_payload s).response ≢ metadata_created n ids)
            × KeepsUploads s (handle env jenv request_payload s).store)
  unfolding handle
  handle-explained request_payload s =
      let payload = stripped request_payload in
      let (verdict, counters) = validate_callback_payload payload in
      elim (verdict-Explains request_payload payload (resolved request_payload)
        (unresolved (resolve_callback_correlation jenv request_payload).0 ++ counters) s verdict) [
          | inr r ↦ inr r
          | inl (a, e) ↦
              let (ready, files) = (validate_callback_payload-accepted_iff payload).0 a in
              inl (ready, files, e)
        ]
