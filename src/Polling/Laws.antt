-- ===== src/Polling/Laws.antt =====
-- What a poll reports, and what it keeps to itself.
use fcp_sfd_object_processor.Common.{
  ℕ, String, str_eq, ◌≡◌, ◌≢◌, refl, ap, ◌⊎◌, inl, inr, ◌↔◌, true, false, ◌&&◌, ◌==◌, leb, Option,
  none, some, List, [], ◌∷◌, any, is_empty, is_empty_text, Bool-cases,
}
use fcp_sfd_object_processor.Json.{Json, get, has, is_the_text}
use fcp_sfd_object_processor.Journey.{journey_id_key, Session}
use fcp_sfd_object_processor.Journey.Laws.{split_journey_id-strips}
use fcp_sfd_object_processor.Status.{StatusRecord}
use fcp_sfd_object_processor.Verdict.{
  ClientError, Verdict, awaiting_callback, accepted, delivery_failed, rejected_by_processor, Reads,
  local_verdict, verdict_of_records, verdict_of_journey, verdict_of_session, has_failed,
  verdict_file_ids, is_undelivered, or_validation_failed,
}
use fcp_sfd_object_processor.Verdict.Laws.{IsAccepted, local_verdict-accepted_iff}
use fcp_sfd_object_processor.Initiate.{Fetched, timed_out, broken, responded}
use fcp_sfd_object_processor.Polling.{
  upload_success, upload_failure, MappedStatus, Shown, extract_scanner_errors, or_scanner_default,
  above_zero, status_of_verdict, mapped_status, shown, PollEnv, poll, answer_accepted,
  answer_parsed, answer_polled, map_cdp_status,
}

abbrev pub IsReported : MappedStatus → Type 0
IsReported m =
    ((m.upload_status ≡ upload_failure)
      × (e : ClientError) × (es : List ClientError) × (m.errors ≡ some (e ∷ es)))
    ⊎ ((m.upload_status ≢ upload_failure) × (m.errors ≡ none))

success-of_verdict :
    (v : Verdict) → (status_of_verdict v).upload_status ≡ upload_success → v ≡ accepted
unfolding status_of_verdict
success-of_verdict awaiting_callback h = absurd (cc h)
success-of_verdict accepted h = refl
success-of_verdict delivery_failed h = absurd (cc h)
success-of_verdict (rejected_by_processor es) h = absurd (cc h)

module _ (reads : Reads) (response : Json) where
  -- An upload is reported as a success exactly when the upstream service calls it ready, counts no
  -- rejected file, and the records of this service accept it.
  pub mapped_status-success_iff :
      ((mapped_status reads response).upload_status ≡ upload_success) ↔ (
        (is_the_text (get response "uploadStatus") "ready" ≡ true)
        × (above_zero (get response "numberOfRejectedFiles") ≡ false)
        × IsAccepted reads)
  unfolding mapped_status status_of_verdict
  mapped_status-success_iff = (to, from)
    where
      to :
          (mapped_status reads response).upload_status ≡ upload_success
          → (is_the_text (get response "uploadStatus") "ready" ≡ true)
            × (above_zero (get response "numberOfRejectedFiles") ≡ false)
            × IsAccepted reads
      to h = elim (Bool-cases (is_the_text (get response "uploadStatus") "ready")) [
        | inr r ↦ absurd (cc (rw r at h))
        | inl r ↦ elim (Bool-cases (above_zero (get response "numberOfRejectedFiles"))) [
          | inl n ↦ absurd (cc (rw (r, n) at h))
          | inr n ↦
              (r, n, (local_verdict-accepted_iff reads).0 (success-of_verdict _ (rw (r, n) at h)))
        ]
      ]

      from :
          (is_the_text (get response "uploadStatus") "ready" ≡ true)
            × (above_zero (get response "numberOfRejectedFiles") ≡ false)
            × IsAccepted reads
          → (mapped_status reads response).upload_status ≡ upload_success
      from (r, n, a) = rw (r, n, (local_verdict-accepted_iff reads).1 a) refl

-- a rejection has an error
IsFilled : Verdict → Type 0
IsFilled (rejected_by_processor []) = ⊥
IsFilled _ = Unit

or_validation_failed-IsFilled :
    (es : List ClientError) → IsFilled (rejected_by_processor (or_validation_failed es))
unfolding IsFilled
or_validation_failed-IsFilled [] = tt
or_validation_failed-IsFilled (e ∷ es) = tt

status_of_verdict-IsReported : (v : Verdict) → IsFilled v → IsReported (status_of_verdict v)
unfolding IsFilled status_of_verdict
status_of_verdict-IsReported awaiting_callback f = inr ((λ e. cc e), refl)
status_of_verdict-IsReported accepted f = inr ((λ e. cc e), refl)
status_of_verdict-IsReported delivery_failed f = inl (refl, _, _, refl)
status_of_verdict-IsReported (rejected_by_processor []) f = elim f [ ]
status_of_verdict-IsReported (rejected_by_processor (e ∷ es)) f = inl (refl, e, es, refl)

scanner_default-cons :
    (es : List ClientError)
    → (e : ClientError) × (rest : List ClientError) × (or_scanner_default es ≡ e ∷ rest)
scanner_default-cons [] = (_, _, refl)
scanner_default-cons (e ∷ es) = (e, es, refl)

module _ (reads : Reads) where
  verdict_of_records-IsFilled : (rs : List StatusRecord) → IsFilled (verdict_of_records reads rs)
  unfolding verdict_of_records IsFilled
  verdict_of_records-IsFilled rs = elim (Bool-cases (is_empty rs)) [
    | inl a ↦ rw a tt
    | inr a ↦ elim (Bool-cases (any has_failed rs)) [
      | inl b ↦ rw (a, b) (or_validation_failed-IsFilled _)
      | inr b ↦
          elim (Bool-cases (
            any
              (is_undelivered (reads.delivery (verdict_file_ids rs))
                (reads.published (verdict_file_ids rs)))
              (verdict_file_ids rs))) [ inl c ↦ rw (a, b, c) tt | inr c ↦ rw (a, b, c) tt ]
    ]
  ]

  verdict_of_journey-IsFilled : (j : Option String) → IsFilled (verdict_of_journey reads j)
  unfolding IsFilled
  verdict_of_journey-IsFilled none = tt
  verdict_of_journey-IsFilled (some j) = elim (Bool-cases (is_empty_text j)) [
    | inl t ↦ rw t tt
    | inr t ↦ rw t (verdict_of_records-IsFilled (reads.statuses j))
  ]

  verdict_of_session-IsFilled : (s : Option Session) → IsFilled (verdict_of_session reads s)
  unfolding IsFilled
  verdict_of_session-IsFilled none = tt
  verdict_of_session-IsFilled (some s) = verdict_of_journey-IsFilled s.journey_id

  -- A failure is reported with at least one error, whether the scanner, this service's checks or
  -- the delivery failed, and every other status without errors.
  pub mapped_status-IsReported : (response : Json) → IsReported (mapped_status reads response)
  unfolding mapped_status local_verdict extract_scanner_errors
  mapped_status-IsReported response =
      elim (Bool-cases (is_the_text (get response "uploadStatus") "ready")) [
        | inr r ↦ rw r (inr ((λ e. cc e), refl))
        | inl r ↦ elim (Bool-cases (above_zero (get response "numberOfRejectedFiles"))) [
          | inl n ↦
              let (e, es, same) = scanner_default-cons _ in
              rw (r, n) (inl (refl, e, es, ap some same))
          | inr n ↦
              rw (r, n)
                (status_of_verdict-IsReported (local_verdict reads)
                  (verdict_of_session-IsFilled reads.session))
        ]
      ]

-- the metadata that is shown, by key
shown-keys :
    (reads : Reads) (response : Json) (s : Shown)
    → s ≡ map_cdp_status reads response
    → (has s.metadata journey_id_key ≡ false)
      × ((k : String)
          → str_eq journey_id_key k ≡ false
          → get s.metadata k ≡ get (get response "metadata") k)
unfolding map_cdp_status
shown-keys reads response s e =
    let strips = split_journey_id-strips (get response "metadata") in
    (rw e (strips "sbi" refl).0, λ k other. rw e (strips k other).1)

module _ (env : PollEnv) (upload_id : String) (s : Shown) where
  -- What a client is shown is made of a response that the upstream service gave for this upload,
  -- with a status of success, and that the schema accepted as `response`.
  pub record ShownFrom (response : Json) : Type 0 where
    pub status : ℕ
    pub body : Json
    pub fetched : env.fetch upload_id ≡ responded status (some body)
    pub is_success : (leb 200 status && leb status 299) ≡ true
    pub accepts : env.accepts body ≡ some response
    pub mapped : s ≡ map_cdp_status (env.reads upload_id) response

  accepted-shown :
      (v : Option Json)
      → answer_accepted (env.reads upload_id) v ≡ shown s
      → (response : Json) × (v ≡ some response)
        × (s ≡ map_cdp_status (env.reads upload_id) response)
  accepted-shown none h = absurd (cc h)
  accepted-shown (some response) h = (response, refl, cc h)

  parsed-shown :
      (status : ℕ) (body : Option Json)
      → env.fetch upload_id ≡ responded status body
      → (leb 200 status && leb status 299) ≡ true
      → answer_parsed env upload_id body ≡ shown s
      → (response : Json) × ShownFrom response
  parsed-shown status none e u h = absurd (cc h)
  parsed-shown status (some body) e u h =
      let (response, a, m) = accepted-shown (env.accepts body) h in
      (
        response,
        record {
          status = status;
          body = body;
          fetched = e;
          is_success = u;
          accepts = a;
          mapped = m;
        },
      )

  fetched-shown :
      (r : Fetched)
      → env.fetch upload_id ≡ r
      → answer_polled env upload_id r ≡ shown s
      → (response : Json) × ShownFrom response
  fetched-shown timed_out e h = absurd (cc h)
  fetched-shown broken e h = absurd (cc h)
  fetched-shown (responded status body) e h = elim (Bool-cases (status == 404)) [
    | inl t ↦ absurd (cc (rw t at h))
    | inr t ↦ elim (Bool-cases (leb 200 status && leb status 299)) [
      | inl u ↦ parsed-shown status body e u (rw (t, u) at h)
      | inr u ↦ absurd (cc (rw (t, u) at h))
    ]
  ]

  -- A client is shown a status only where the upstream service answered the poll of this upload
  -- with a success and the schema accepted the answer. Then it is shown no journey identifier, and
  -- every other key of the metadata as in the accepted answer.
  pub poll-hides :
      poll env upload_id ≡ shown s
      → (has s.metadata journey_id_key ≡ false)
        × (response : Json) × ShownFrom response
        × ((k : String)
            → str_eq journey_id_key k ≡ false
            → get s.metadata k ≡ get (get response "metadata") k)
  unfolding poll
  poll-hides h =
      let (response, f) = fetched-shown (env.fetch upload_id) refl h in
      let (absent, kept) = shown-keys (env.reads upload_id) response s f.mapped in
      (absent, response, f, kept)
