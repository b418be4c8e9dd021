-- ===== src/Publish/Run/Confirmed.antt =====
-- No entry becomes SENT without the message service's word.
use fcp_sfd_object_processor.Common.{
  ℕ, ◌+◌, ◌*◌, ◌≡◌, refl, ◌⊎◌, inl, inr, Bool, true, Option, List, [], ◌∷◌, ◌++◌, ◌==◌, arith,
  length, map, any, All, All-imp, In, here, there, Result, ok, err, Result-cases, Bool-cases,
}
use fcp_sfd_object_processor.Document.{Stored}
use fcp_sfd_object_processor.Mongo.{replace_matching}
use fcp_sfd_object_processor.Outbox.{
  sent, DeliveryOutcome, succeeded, failed, other, EntryError, Entry, is_finalizable, sent_update,
  failed_update,
}
use fcp_sfd_object_processor.Outbox.Effects.{outcome_update}
use fcp_sfd_object_processor.Publish.Env.{Env, World, FailedResult}
use fcp_sfd_object_processor.Publish.Message.{build_messages, request_entries}
use fcp_sfd_object_processor.Publish.Results.{publish_results, entries_of_results}
use fcp_sfd_object_processor.Publish.Run.{
  is_succeeded, Finalization, Committed, finalize_entries, commit_batch, handle_failed_entries,
  after_commit, publish_batch,
}
use fcp_sfd_object_processor.Publish.Run.Answered.{IsConfirmed, published-IsConfirmed}
use fcp_sfd_object_processor.Publish.Run.Inversion.{
  matches, updated, next, finalize_entries-cons, outbox-sort_result,
}

All-at : {A : Type 0} (P : A → Type 0) {a : A} (xs : List A) → All P xs → In a xs → P a
All-at P [] h m = elim m [ ]
All-at P (x ∷ xs) h here = h.0
All-at P (x ∷ xs) h (there m) = All-at P xs h.1 m

-- an entry of the list has the identifier of `d`
abbrev pub is_listed : List Entry → Entry → Bool
is_listed es d = any (λ (e : Entry). e.id == d.id) es

-- An entry that is sent now was in the old collection, sent, or meets the test.
abbrev pub SentBy : (Entry → Bool) → List Entry → Entry → Type 0
SentBy q c d = d.status ≡ sent → In d c ⊎ (q d ≡ true)

module _ (q : Entry → Bool) where
  replaced :
      (p : Entry → Bool) (f : Entry → Entry) (c : List Entry)
      → ((d : Entry) → p d ≡ true → (f d).status ≡ sent → q (f d) ≡ true)
      → All (SentBy q c) (replace_matching p f c)
  replaced p f [] k = tt
  replaced p f (d ∷ c) k = (
    elim (Bool-cases (p d)) [ inl t ↦ rw t (λ s. inr (k d t s)) | inr t ↦ rw t (λ s. inl here) ],
    All-imp (SentBy q c) (SentBy q (d ∷ c))
        (λ a h s. elim (h s) [ inl m ↦ inl (there m) | inr l ↦ inr l ]) _ (replaced p f c k),
  )

  compose :
      (c c' c'' : List Entry) → All (SentBy q c) c' → All (SentBy q c') c'' → All (SentBy q c) c''
  compose c c' [] h k = tt
  compose c c' (d ∷ ds) h k = (
    (λ s. elim (k.0 s) [ inl m ↦ All-at (SentBy q c) c' h m s | inr l ↦ inr l ]),
    compose c c' ds h k.1,
  )

  unchanged : (c : List Entry) → All (SentBy q c) c
  unchanged [] = tt
  unchanged (d ∷ c) = (
    (λ s. inl here),
    All-imp (SentBy q c) (SentBy q (d ∷ c))
        (λ a h s. elim (h s) [ inl m ↦ inl (there m) | inr l ↦ inr l ]) c (unchanged c),
  )

  -- what the test must accept of a list that is finalized with an outcome
  abbrev Accepts : DeliveryOutcome → List Entry → Type 0
  Accepts outcome es =
      is_succeeded outcome ≡ true → All (λ e. (d : Entry) → (e.id == d.id) ≡ true → q d ≡ true) es

  module _ (env : Env) (outcome : DeliveryOutcome) (failed_results : List FailedResult) where
    finalized_now :
        (outcome : DeliveryOutcome) (error : Option EntryError) (e : Entry) (now : ℕ) (d : Entry)
        → (is_succeeded outcome ≡ true → (x : Entry) → (e.id == x.id) ≡ true → q x ≡ true)
        → is_finalizable (e.id ∷ []) env.worker now d ≡ true
        → (outcome_update env.config outcome error now d).status ≡ sent
        → q (outcome_update env.config outcome error now d) ≡ true
    unfolding is_finalizable sent_update failed_update
    finalized_now succeeded error e now d k t s = k refl _ (ground arith)
    finalized_now failed error e now d k t s = ground arith
    finalized_now (other x) error e now d k t s = ground arith

    finalize_entries-SentBy :
        (es : List Entry) (reads : ℕ) (c : List Entry) (fin : Finalization)
        → Accepts outcome es
        → finalize_entries env outcome failed_results es reads c ≡ ok fin
        → All (SentBy q c) fin.outbox
    unfolding finalize_entries
    finalize_entries-SentBy [] reads c fin a h =
        let same : c ≡ fin.outbox = ground arith in rw (← same) (unchanged c)
    finalize_entries-SentBy (e ∷ es) reads c fin a h =
        let (later, eq, same) =
          finalize_entries-cons env outcome failed_results e es reads c fin h in
        rw (same, outbox-sort_result)
          (compose c (next env outcome failed_results reads e c) later.outbox
            (replaced (matches env outcome failed_results reads e)
              (updated env outcome failed_results reads e) c
              (λ d. finalized_now outcome _ e (env.clock reads) d (λ s. (a s).0)))
            (finalize_entries-SentBy es (reads + 1) (next env outcome failed_results reads e c)
              later (λ s. (a s).1) eq))

Accepts-listed :
    (es : List Entry) → All (λ e. (d : Entry) → (e.id == d.id) ≡ true → is_listed es d ≡ true) es
Accepts-listed [] = tt
Accepts-listed (e ∷ es) = (
  (λ d t. ground arith),
  All-imp (λ x. (d : Entry) → (x.id == d.id) ≡ true → is_listed es d ≡ true)
      (λ x. (d : Entry) → (x.id == d.id) ≡ true → is_listed (e ∷ es) d ≡ true)
      (λ x k d t. let l = k d t in ground arith) es (Accepts-listed es),
)

module _ (env : Env) where
  commit_batch-SentBy :
      (good bad : List Entry) (results : List FailedResult) (reads : ℕ) (c : List Entry)
      (metadata : List Stored) (done : Committed)
      → commit_batch env good bad results reads c metadata ≡ ok done
      → All (SentBy (is_listed good) c) done.failed_entries.outbox
  unfolding commit_batch
  commit_batch-SentBy good bad results reads c metadata done h =
      elim (Result-cases (finalize_entries env succeeded [] good reads c)) [
        | inr (f, eq) ↦ absurd (cc (rw eq at h))
        | inl (g, eq) ↦
            elim (Result-cases (finalize_entries env failed results bad g.reads g.outbox)) [
              | inr (f, eq') ↦ absurd (cc (rw (eq, eq') at h))
              | inl (b, eq') ↦
                  let same : b ≡ done.failed_entries = ground (arith, eq, eq', h) in
                  rw (← same) (
                    compose (is_listed good) c g.outbox b.outbox
                      (finalize_entries-SentBy (is_listed good) env succeeded [] good reads c g
                        (λ s. Accepts-listed good) eq)
                      (finalize_entries-SentBy (is_listed good) env failed results bad g.reads
                        g.outbox b (λ s. cc) eq'))
            ]
      ]

  pub outbox-handle_failed_entries :
      (es : List Entry) (x : World) → (handle_failed_entries env es x).outbox ≡ x.outbox
  unfolding handle_failed_entries
  outbox-handle_failed_entries [] x = refl
  outbox-handle_failed_entries (e ∷ es) x = refl

  after_commit-SentBy :
      (q : Entry → Bool) (x : World) (r : Result Committed)
      → ((done : Committed) → r ≡ ok done → All (SentBy q x.outbox) done.failed_entries.outbox)
      → All (SentBy q x.outbox) (after_commit env x r).0.outbox
  unfolding after_commit
  after_commit-SentBy q x (ok done) k = rw outbox-handle_failed_entries (k done refl)
  after_commit-SentBy q x (err f) k = unchanged q x.outbox

  -- the entries that a batch counts as published
  abbrev counted : List Entry → World → List Entry
  counted batch x =
      entries_of_results batch
        (publish_results batch
          (env.send (request_entries (build_messages env x.reads batch)))).successful

  publish_batch-SentBy :
      (batch : List Entry) (x : World)
      → All (SentBy (is_listed (counted batch x)) x.outbox) (publish_batch env batch x).0.outbox
  unfolding publish_batch
  publish_batch-SentBy batch x =
      let request = request_entries (build_messages env x.reads batch) in
      let results = publish_results batch (env.send request) in
      let bad = entries_of_results batch (map (λ (r : FailedResult). r.id) results.failed) in
      let reads = x.reads + 2 * length batch in
      after_commit-SentBy (is_listed (counted batch x))
        (record x { reads = reads; requests = x.requests ++ (request ∷ []) })
        (commit_batch env (counted batch x) bad results.failed reads x.outbox x.metadata)
        (λ done eq.
          commit_batch-SentBy (counted batch x) bad results.failed reads x.outbox x.metadata done
            eq)

  -- After a batch, however it ends, an entry that is SENT was SENT before, unchanged, or the message
  -- service answered the request of the batch, and its answer lists as successful the identifier of
  -- an entry of the batch that is stored under the same identifier.
  pub publish_batch-IsConfirmed :
      (batch : List Entry) (x : World)
      → All
          (λ d.
            d.status ≡ sent
            → In d x.outbox
              ⊎ IsConfirmed (env.send (request_entries (build_messages env x.reads batch))) batch d)
          (publish_batch env batch x).0.outbox
  publish_batch-IsConfirmed batch x =
      All-imp (SentBy (is_listed (counted batch x)) x.outbox) _
        (λ d h s. elim (h s) [
          | inl m ↦ inl m
          | inr l ↦ inr (
              published-IsConfirmed (env.send (request_entries (build_messages env x.reads batch)))
                batch d l)
        ])
        (publish_batch env batch x).0.outbox (publish_batch-SentBy batch x)
