-- ===== src/Outbox/Valid.antt =====
-- The well-formedness of outbox entries, and that every operation keeps it.
use fcp_sfd_object_processor.Common.{
  ℕ, zero, suc, ◌≤◌, ◌<◌, String, ◌≡◌, refl, inl, inr, ◌≢◌, Bool, true, Option, none, some, List,
  [], ◌∷◌, ◌++◌, arith, All, All-append, Bool-cases,
}
use fcp_sfd_object_processor.Json.{is_the_text}
use fcp_sfd_object_processor.Document.{Document}
use fcp_sfd_object_processor.Mongo.{Collection, replace_matching}
use fcp_sfd_object_processor.Outbox.{
  Status, pending, processing, sent, permanent_failure, Entry, EntryError, Config, DeliveryOutcome,
  succeeded, failed, other, is_processable, claim_update, is_finalizable, sent_update,
  failed_update, new_entries, claim_loop, claim_processable_outbox_entries,
}
use fcp_sfd_object_processor.Outbox.Effects.{create-cases, finalize-cases, outcome_update}
use fcp_sfd_object_processor.Outbox.Runs.{Operation, create, claim, finalize, step, run}

-- What the status of an entry says of its other fields.
abbrev pub StatusFits : ℕ → Entry → Status → Type 0
StatusFits most e pending = (e.attempts < most) × (e.claimed_by ≡ none) × (e.claimed_until ≡ none)
StatusFits most e processing =
    (0 < e.attempts) × (e.claimed_by ≢ none) × (e.claimed_until ≢ none) × (e.claimed_at ≢ none)
StatusFits most e sent =
    (0 < e.attempts) × (e.claimed_by ≡ none) × (e.last_attempted_at ≢ none) × (e.error ≡ none)
StatusFits most e permanent_failure =
    (e.attempts ≡ most) × (e.claimed_by ≡ none) × (e.last_attempted_at ≢ none)

pub record IsValid (most : ℕ) (e : Entry) : Type 0 where
  pub within : e.attempts ≤ most
  pub fits : StatusFits most e e.status

some-ne-none : {A : Type 0} (a : A) → some a ≢ none
some-ne-none a = λ h. cc h

module _ (cfg : Config) where
  new_entries-IsValid :
      (now : ℕ) (ids metadata_ids : List ℕ) (documents : List Document)
      → 0 < cfg.max_attempts
      → All (IsValid cfg.max_attempts) (new_entries now ids metadata_ids documents)
  unfolding new_entries
  new_entries-IsValid now (i ∷ ids) (m ∷ metadata_ids) (d ∷ documents) h =
      elim (Bool-cases (is_the_text d.file.file_status "complete")) [
        | inl t ↦ rw t (
          record { within = omega arith; fits = (h, refl, refl) },
          new_entries-IsValid now ids metadata_ids documents h,
        )
        | inr t ↦ rw t (new_entries-IsValid now (i ∷ ids) metadata_ids documents h)
      ]
  new_entries-IsValid now [] metadata_ids documents h = tt
  new_entries-IsValid now (i ∷ ids) [] documents h = tt
  new_entries-IsValid now (i ∷ ids) (m ∷ metadata_ids) [] h = tt

  claim_update-IsValid :
      (worker : String) (now : ℕ) (e : Entry)
      → is_processable cfg now e ≡ true
      → IsValid cfg.max_attempts e
      → IsValid cfg.max_attempts (claim_update cfg worker now e)
  unfolding is_processable claim_update
  claim_update-IsValid worker now e h v = record {
    within = ground arith;
    fits = (omega arith, some-ne-none _, some-ne-none _, some-ne-none _);
  }

  failed_update-IsValid :
      (error : Option EntryError) (now : ℕ) (e : Entry)
      → IsValid cfg.max_attempts e
      → IsValid cfg.max_attempts (failed_update cfg.max_attempts error now e)
  unfolding failed_update
  failed_update-IsValid error now e v = ground arith

  outcome_update-IsValid :
      (outcome : DeliveryOutcome) (error : Option EntryError) (ids : List ℕ) (worker : String)
      (now : ℕ) (e : Entry)
      → is_finalizable ids worker now e ≡ true
      → IsValid cfg.max_attempts e
      → IsValid cfg.max_attempts (outcome_update cfg outcome error now e)
  unfolding is_finalizable sent_update
  outcome_update-IsValid succeeded error ids worker now e h v = ground arith
  outcome_update-IsValid failed error ids worker now e h v = failed_update-IsValid error now e v
  outcome_update-IsValid (other s) error ids worker now e h v = v

  All-middle :
      (P : Entry → Type 0) (xs ys : List Entry) (d d' : Entry)
      → All P (xs ++ (d ∷ ys))
      → (P d → P d')
      → All P (xs ++ (d' ∷ ys))
  All-middle P [] ys d d' h f = (f h.0, h.1)
  All-middle P (x ∷ xs) ys d d' h f = (h.0, All-middle P xs ys d d' h.1 f)

  All-replace_matching :
      (P : Entry → Type 0) (p : Entry → Bool) (f : Entry → Entry) (c : List Entry)
      → ((e : Entry) → p e ≡ true → P e → P (f e))
      → All P c
      → All P (replace_matching p f c)
  All-replace_matching P p f [] k h = tt
  All-replace_matching P p f (e ∷ c) k h = elim (Bool-cases (p e)) [
    | inl t ↦ rw t (k e t h.0, All-replace_matching P p f c k h.1)
    | inr t ↦ rw t (h.0, All-replace_matching P p f c k h.1)
  ]

  module _ (db : Collection Entry) where
    claim_loop-IsValid :
        (worker : String) (now rounds : ℕ) (c : List Entry)
        → All (IsValid cfg.max_attempts) c
        → All (IsValid cfg.max_attempts) (claim_loop db cfg worker now rounds c).1
    unfolding claim_loop
    claim_loop-IsValid worker now zero c h = h
    claim_loop-IsValid worker now (suc rounds) c h =
        elim (db.find_one_and_update_lem (λ x. x.created_at) (is_processable cfg now)
          (claim_update cfg worker now) c) [
            | inl (all, eq) ↦ rw eq h
            | inr (xs, d, ys, split, pd, least, eq) ↦ rw eq (
                claim_loop-IsValid worker now rounds (xs ++ (claim_update cfg worker now d ∷ ys)) (
                  All-middle (IsValid cfg.max_attempts) xs ys d (claim_update cfg worker now d)
                    (rw split at h) (claim_update-IsValid worker now d pd)))
          ]

    step-IsValid :
        (o : Operation) (c : List Entry)
        → 0 < cfg.max_attempts
        → All (IsValid cfg.max_attempts) c
        → All (IsValid cfg.max_attempts) (step db cfg o c)
    unfolding step claim_processable_outbox_entries
    step-IsValid (create now ids metadata_ids documents) c h v =
        elim (create-cases db now ids metadata_ids documents c) [
          | inl eq ↦ rw eq v
          | inr eq ↦ rw eq (
              All-append (IsValid cfg.max_attempts) c _ v
                (new_entries-IsValid now ids metadata_ids documents h))
        ]
    step-IsValid (claim worker now) c h v = claim_loop-IsValid worker now cfg.query_limit c v
    step-IsValid (finalize ids worker outcome error now) c h v =
        elim (finalize-cases db cfg ids worker outcome error now c) [
          | inl eq ↦ rw eq v
          | inr eq ↦ rw eq (
              All-replace_matching (IsValid cfg.max_attempts) (is_finalizable ids worker now)
                (outcome_update cfg outcome error now) c
                (outcome_update-IsValid outcome error ids worker now) v)
        ]

    pub run_keeps-IsValid :
        (os : List Operation) (c : List Entry)
        → 0 < cfg.max_attempts
        → All (IsValid cfg.max_attempts) c
        → All (IsValid cfg.max_attempts) (run db cfg os c)
    unfolding run
    run_keeps-IsValid [] c h v = v
    run_keeps-IsValid (o ∷ os) c h v =
        run_keeps-IsValid os (step db cfg o c) h (step-IsValid o c h v)

    -- Whatever sequence of creations, claims and finalizations the workers make on an empty outbox,
    -- no entry is attempted more often than the configured maximum, a pending entry has attempts
    -- left and no owner, an entry in processing has an owner and a lease, a sent one has no error
    -- left, and one that failed for good has used all of its attempts.
    pub run-IsValid :
        (os : List Operation)
        → 0 < cfg.max_attempts
        → All (IsValid cfg.max_attempts) (run db cfg os [])
    run-IsValid os h = run_keeps-IsValid os [] h tt
