-- ===== src/Verdict/Laws.antt =====
-- When an upload counts as accepted, rejected or undelivered.
use fcp_sfd_object_processor.Common.{
  ℕ, String, ◌≡◌, ◌≢◌, refl, sym, ◌∙◌, map, In, map-In, In-map, In-filter, filter-In, All-filter,
  All-In, All-of-In, inl, inr, ◌↔◌, Bool, true, false, Option, none, some, List, [], ◌∷◌, any,
  is_empty, All, arith, Bool-cases, is_empty_text,
}
use fcp_sfd_object_processor.Json.{Json, undefined, null, bool, num, str, oid, arr, obj}
use fcp_sfd_object_processor.Outbox.{Status}
use fcp_sfd_object_processor.Status.{StatusRecord, is_filled_text}
use fcp_sfd_object_processor.Verdict.Delivery.{IsUndelivered, is_undelivered_iff}
use fcp_sfd_object_processor.Journey.{Session}
use fcp_sfd_object_processor.Verdict.{
  accepted, Reads, has_failed, verdict_file_ids, is_undelivered, verdict_of_records,
  verdict_of_journey, verdict_of_session, local_verdict,
}

any-false_iff :
    {A : Type 0} (p : A → Bool) (xs : List A) → (any p xs ≡ false) ↔ All (λ x. p x ≡ false) xs
any-false_iff {A} p xs = (to xs, from xs)
  where
    to : (xs : List A) → any p xs ≡ false → All (λ x. p x ≡ false) xs
    to [] h = tt
    to (x ∷ xs) h = elim (Bool-cases (p x)) [
      | inl t ↦ absurd (cc (rw t at h))
      | inr t ↦ (t, to xs (rw t at h))
    ]

    from : (xs : List A) → All (λ x. p x ≡ false) xs → any p xs ≡ false
    from [] a = refl
    from (x ∷ xs) a = rw a.0 (from xs a.1)

-- No file of the records is undelivered, by what the queries for the files return.
abbrev pub AreDelivered : Reads → List StatusRecord → Type 0
AreDelivered reads rs =
    (r : StatusRecord) (t : String)
    → In r rs
    → r.file_id ≡ str t
    → is_empty_text t ≡ false
    → IsUndelivered t (reads.delivery (verdict_file_ids rs)) (reads.published (verdict_file_ids rs))
    → ⊥

-- What the reads hold of an upload that was accepted.
pub record IsAccepted (reads : Reads) : Type 0 where
  pub session : Session
  pub journey_id : String
  pub found : reads.session ≡ some session
  pub journey : session.journey_id ≡ some journey_id
  pub filled : is_empty_text journey_id ≡ false
  pub processed : reads.statuses journey_id ≢ []
  pub all_validated : All (λ (r : StatusRecord). r.validated ≡ true) (reads.statuses journey_id)
  pub none_undelivered : AreDelivered reads (reads.statuses journey_id)

filled_text :
    (i : Json) → is_filled_text i ≡ true → (t : String) × (i ≡ str t) × (is_empty_text t ≡ false)
filled_text (str t) h = (t, refl, ground arith)
filled_text undefined h = absurd (cc h)
filled_text null h = absurd (cc h)
filled_text (bool b) h = absurd (cc h)
filled_text (num n) h = absurd (cc h)
filled_text (oid n) h = absurd (cc h)
filled_text (arr xs) h = absurd (cc h)
filled_text (obj fs) h = absurd (cc h)

module _ (o : List (Json × Status)) (m : List (Json × Option ℕ)) (rs : List StatusRecord) where
  delivered_of_ids :
      All (λ i. is_undelivered o m i ≡ false) (verdict_file_ids rs)
      → (r : StatusRecord) (t : String) → In r rs
      → r.file_id ≡ str t
      → is_empty_text t ≡ false
      → IsUndelivered t o m
      → ⊥
  delivered_of_ids a r t n e f =
      let c = map-In (λ (r : StatusRecord). r.file_id) r rs n in
      let i = filter-In is_filled_text r.file_id _ (rw (e, f)) c in
      let u = All-In (λ i. is_undelivered o m i ≡ false) (verdict_file_ids rs) r.file_id a i in
      (is_undelivered_iff t o m).0 (rw e at u)

  ids_of_delivered :
      ((r : StatusRecord) (t : String)
        → In r rs
        → r.file_id ≡ str t
        → is_empty_text t ≡ false
        → IsUndelivered t o m
        → ⊥)
      → All (λ i. is_undelivered o m i ≡ false) (verdict_file_ids rs)
  ids_of_delivered k =
      All-of-In (λ i. is_undelivered o m i ≡ false) (verdict_file_ids rs)
        (λ i n.
          let ids = map (λ (r : StatusRecord). r.file_id) rs in
          let (t, e, f) = filled_text i (
            All-In (λ i. is_filled_text i ≡ true) (verdict_file_ids rs) i
              (All-filter is_filled_text ids) n) in
          let (r, c, q) =
            In-map (λ (r : StatusRecord). r.file_id) i rs (In-filter is_filled_text i ids n) in
          rw e ((is_undelivered_iff t o m).1 (k r t c (sym q ∙ e) f)))

validated-All :
    (rs : List StatusRecord)
    → All (λ r. has_failed r ≡ false) rs
    → All (λ (r : StatusRecord). r.validated ≡ true) rs
validated-All [] a = tt
validated-All (r ∷ rs) a = (ground arith, validated-All rs a.1)

none_failed :
    (rs : List StatusRecord)
    → All (λ (r : StatusRecord). r.validated ≡ true) rs
    → All (λ r. has_failed r ≡ false) rs
none_failed [] a = tt
none_failed (r ∷ rs) a = (rw a.0, none_failed rs a.1)

not_empty : {A : Type 0} (xs : List A) → is_empty xs ≡ false → xs ≢ []
not_empty [] h = absurd (cc h)
not_empty (x ∷ xs) h = λ e. cc e

is_empty-false : {A : Type 0} (xs : List A) → xs ≢ [] → is_empty xs ≡ false
is_empty-false [] h = absurd (h refl)
is_empty-false (x ∷ xs) h = refl

module _ (reads : Reads) where
  abbrev AcceptedRecords : List StatusRecord → Type 0
  AcceptedRecords rs =
      (rs ≢ [])
      × All (λ (r : StatusRecord). r.validated ≡ true) rs
      × All
          (λ i.
            is_undelivered (reads.delivery (verdict_file_ids rs))
              (reads.published (verdict_file_ids rs)) i
            ≡ false)
          (verdict_file_ids rs)

  records_sound :
      (rs : List StatusRecord) → verdict_of_records reads rs ≡ accepted → AcceptedRecords rs
  unfolding verdict_of_records
  records_sound rs h = elim (Bool-cases (is_empty rs)) [
    | inl e ↦ absurd (cc (rw e at h))
    | inr e ↦ elim (Bool-cases (any has_failed rs)) [
      | inl f ↦ absurd (cc (rw (e, f) at h))
      | inr f ↦
          elim (Bool-cases (
            any
              (is_undelivered (reads.delivery (verdict_file_ids rs))
                (reads.published (verdict_file_ids rs)))
              (verdict_file_ids rs))) [
                | inl u ↦ absurd (cc (rw (e, f, u) at h))
                | inr u ↦ (
                  not_empty rs e,
                  validated-All rs ((any-false_iff has_failed rs).0 f),
                  (any-false_iff _ _).0 u,
                )
              ]
    ]
  ]

  records_complete :
      (rs : List StatusRecord) → AcceptedRecords rs → verdict_of_records reads rs ≡ accepted
  unfolding verdict_of_records
  records_complete rs (n, v, u) = rw (
    is_empty-false rs n,
    (any-false_iff has_failed rs).1 (none_failed rs v),
    (any-false_iff
          (is_undelivered (reads.delivery (verdict_file_ids rs))
            (reads.published (verdict_file_ids rs)))
          (verdict_file_ids rs)).1
        u,
  )

  journey_sound :
      (s : Session) (j : Option String)
      → reads.session ≡ some s
      → s.journey_id ≡ j
      → verdict_of_journey reads j ≡ accepted
      → IsAccepted reads
  journey_sound s none e k h = absurd (cc h)
  journey_sound s (some j) e k h = elim (Bool-cases (is_empty_text j)) [
    | inl b ↦ absurd (cc (rw b at h))
    | inr b ↦
        let (n, v, u) = records_sound (reads.statuses j) (rw b at h) in
        record {
          session = s;
          journey_id = j;
          found = e;
          journey = k;
          filled = b;
          processed = n;
          all_validated = v;
          none_undelivered =
              delivered_of_ids (reads.delivery (verdict_file_ids (reads.statuses j)))
                (reads.published (verdict_file_ids (reads.statuses j))) (reads.statuses j) u;
        }
  ]

  session_sound :
      (s : Option Session)
      → reads.session ≡ s
      → verdict_of_session reads s ≡ accepted
      → IsAccepted reads
  session_sound none e h = absurd (cc h)
  session_sound (some s) e h = journey_sound s s.journey_id e refl h

  -- An upload is reported as accepted exactly when its session has a journey identifier, the query
  -- for the status records under it, which reads up to its limit, returns some, each of these passed
  -- validation, and of no file that they name is the last outbox entry a PERMANENT_FAILURE while the
  -- first document of the file is missing or has no publication date.
  pub local_verdict-accepted_iff : (local_verdict reads ≡ accepted) ↔ IsAccepted reads
  unfolding local_verdict
  local_verdict-accepted_iff = (
    session_sound reads.session refl,
    λ a.
        rw (a.found, a.journey, a.filled)
          (records_complete (reads.statuses a.journey_id) (
            a.processed,
            a.all_validated,
            ids_of_delivered (reads.delivery (verdict_file_ids (reads.statuses a.journey_id)))
                (reads.published (verdict_file_ids (reads.statuses a.journey_id)))
                (reads.statuses a.journey_id) a.none_undelivered,
          )),
  )
