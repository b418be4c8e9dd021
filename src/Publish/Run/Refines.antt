-- ===== src/Publish/Run/Refines.antt =====
-- The polling run works on the outbox by the operations of the repository only, so that what holds
-- of every sequence of them holds of it.
use fcp_sfd_object_processor.Common.{
  ℕ, ◌+◌, ◌*◌, ◌<◌, ◌≡◌, refl, ap, ◌∙◌, ◌⊎◌, inl, inr, Option, none, some, List, [], ◌∷◌, ◌++◌,
  arith, map, length, Result, ok, err, Failure, Result-cases, All,
}
use fcp_sfd_object_processor.Document.{Stored}
use fcp_sfd_object_processor.Outbox.{
  DeliveryOutcome, succeeded, failed, EntryError, Entry, claim_processable_outbox_entries,
  finalize_claimed_outbox_entries,
}
use fcp_sfd_object_processor.Outbox.Runs.{Operation, claim, finalize, after_result, step, run}
use fcp_sfd_object_processor.Outbox.Valid.{IsValid, run_keeps-IsValid}
use fcp_sfd_object_processor.Publish.Env.{Env, FailedResult, World}
use fcp_sfd_object_processor.Publish.Message.{build_messages, request_entries}
use fcp_sfd_object_processor.Publish.Results.{publish_results, entries_of_results}
use fcp_sfd_object_processor.Publish.Run.{
  Finalization, Committed, error_for, status_for, sort_result, finalize_entries, commit_batch,
  after_commit, publish_batch, publish_batches, batches, unless_failed, emit_poll_metrics,
  publish_pending_messages,
}
use fcp_sfd_object_processor.Publish.Run.Inversion.{outbox-sort_result}
use fcp_sfd_object_processor.Publish.Run.Confirmed.{outbox-handle_failed_entries}

-- what a run reports of an entry
abbrev pub IsReported : DeliveryOutcome → Type 0
IsReported outcome = (outcome ≡ succeeded) ⊎ (outcome ≡ failed)

-- The finalization of one entry by the worker of the run, as delivered or as failed, at a time that
-- its clock showed. Neither a creation nor a claim is one.
abbrev pub IsFinalization : Env → Operation → Type 0
IsFinalization env o =
    (id : ℕ) × (outcome : DeliveryOutcome) × (error : Option EntryError) × (read : ℕ) × IsReported
      outcome
    × (o ≡ finalize (id ∷ []) env.worker outcome error (env.clock read))

-- A sequence of finalizations by the run leads from the first list of entries to the second.
abbrev pub Reaches : Env → List Entry → List Entry → Type 0
Reaches env c c' =
    (os : List Operation) × All (IsFinalization env) os × (run env.outbox env.config os c ≡ c')

All-append :
    (P : Operation → Type 0) (os os' : List Operation) → All P os → All P os' → All P (os ++ os')
All-append P [] os' h k = k
All-append P (o ∷ os) os' h k = (h.0, All-append P os os' h.1 k)

module _ (env : Env) where
  run-append :
      (os os' : List Operation) (c : List Entry)
      → run env.outbox env.config (os ++ os') c
        ≡ run env.outbox env.config os' (run env.outbox env.config os c)
  unfolding run
  run-append [] os' c = refl
  run-append (o ∷ os) os' c = run-append os os' (step env.outbox env.config o c)

  Reaches-refl : (c : List Entry) → Reaches env c c
  unfolding run
  Reaches-refl c = ([], tt, refl)

  Reaches-trans :
      (c c' c'' : List Entry) → Reaches env c c' → Reaches env c' c'' → Reaches env c c''
  Reaches-trans c c' c'' (os, h, e) (os', h', e') = (
    os ++ os',
    All-append (IsFinalization env) os os' h h',
    run-append os os' c ∙ (ap (run env.outbox env.config os') e ∙ e'),
  )

  Reaches-finalize :
      (id : ℕ) (outcome : DeliveryOutcome) (error : Option EntryError) (read : ℕ) (c : List Entry)
      (n : ℕ) (c' : List Entry)
      → IsReported outcome
      → finalize_claimed_outbox_entries env.outbox env.config
          (id ∷ [])
          env.worker
          outcome
          error
          (env.clock read)
          c
        ≡ ok (n, c')
      → Reaches env c c'
  unfolding run step
  Reaches-finalize id outcome error read c n c' r e = (
    finalize (id ∷ []) env.worker outcome error (env.clock read) ∷ [],
    ((id, outcome, error, read, r, refl), tt),
    ap (after_result c) e,
  )

  finalize_entries-Reaches :
      (outcome : DeliveryOutcome) (results : List FailedResult) (es : List Entry) (reads : ℕ)
      (c : List Entry) (fin : Finalization)
      → IsReported outcome
      → finalize_entries env outcome results es reads c ≡ ok fin
      → Reaches env c fin.outbox
  unfolding finalize_entries
  finalize_entries-Reaches outcome results [] reads c fin r h =
      let same : c ≡ fin.outbox = ground arith in rw (← same) (Reaches-refl c)
  finalize_entries-Reaches outcome results (e ∷ es) reads c fin r h =
      elim (Result-cases (
        finalize_claimed_outbox_entries env.outbox env.config (e.id ∷ []) env.worker outcome
          (error_for outcome e results) (env.clock reads) c)) [
            | inr (f, eq) ↦ absurd (cc (rw eq at h))
            | inl ((n, c'), eq) ↦
                elim (Result-cases (finalize_entries env outcome results es (reads + 1) c')) [
                  | inr (f, eq') ↦ absurd (cc (rw (eq, eq') at h))
                  | inl (later, eq') ↦
                      let same : sort_result n e (status_for env.config.max_attempts outcome e)
                            later
                          ≡ fin =
                        cc (rw (eq, eq') at h) in
                      rw (← same, outbox-sort_result)
                        (Reaches-trans c c' later.outbox
                          (Reaches-finalize e.id outcome _ reads c n c' r eq)
                          (finalize_entries-Reaches outcome results es (reads + 1) c' later r eq'))
                ]
          ]

  commit_batch-Reaches :
      (good bad : List Entry) (results : List FailedResult) (reads : ℕ) (c : List Entry)
      (metadata : List Stored) (done : Committed)
      → commit_batch env good bad results reads c metadata ≡ ok done
      → Reaches env c done.failed_entries.outbox
  unfolding commit_batch
  commit_batch-Reaches good bad results reads c metadata done h =
      elim (Result-cases (finalize_entries env succeeded [] good reads c)) [
        | inr (f, eq) ↦ absurd (cc (rw eq at h))
        | inl (g, eq) ↦
            elim (Result-cases (finalize_entries env failed results bad g.reads g.outbox)) [
              | inr (f, eq') ↦ absurd (cc (rw (eq, eq') at h))
              | inl (b, eq') ↦
                  let same : b ≡ done.failed_entries = ground (arith, eq, eq', h) in
                  rw (← same) (
                    Reaches-trans c g.outbox b.outbox
                      (finalize_entries-Reaches succeeded [] good reads c g (inl refl) eq)
                      (finalize_entries-Reaches failed results bad g.reads g.outbox b (inr refl)
                        eq'))
            ]
      ]

  after_commit-Reaches :
      (x : World) (r : Result Committed)
      → ((done : Committed) → r ≡ ok done → Reaches env x.outbox done.failed_entries.outbox)
      → Reaches env x.outbox (after_commit env x r).0.outbox
  unfolding after_commit
  after_commit-Reaches x (ok done) k = rw outbox-handle_failed_entries (k done refl)
  after_commit-Reaches x (err f) k = Reaches-refl x.outbox

  publish_batch-Reaches :
      (batch : List Entry) (x : World) → Reaches env x.outbox (publish_batch env batch x).0.outbox
  unfolding publish_batch
  publish_batch-Reaches batch x =
      let request = request_entries (build_messages env x.reads batch) in
      let results = publish_results batch (env.send request) in
      let good = entries_of_results batch results.successful in
      let bad = entries_of_results batch (map (λ (r : FailedResult). r.id) results.failed) in
      let reads = x.reads + 2 * length batch in
      after_commit-Reaches (record x { reads = reads; requests = x.requests ++ (request ∷ []) })
        (commit_batch env good bad results.failed reads x.outbox x.metadata)
        (commit_batch-Reaches good bad results.failed reads x.outbox x.metadata)

  unless_failed-Reaches :
      (c : List Entry) (rest : World → World × Option Failure) (r : World × Option Failure)
      → ((x : World) → Reaches env x.outbox (rest x).0.outbox)
      → Reaches env c r.0.outbox
      → Reaches env c (unless_failed rest r).0.outbox
  unless_failed-Reaches c rest (x, none) k h = Reaches-trans c x.outbox _ h (k x)
  unless_failed-Reaches c rest (x, some f) k h = h

  publish_batches-Reaches :
      (bs : List (List Entry)) (x : World)
      → Reaches env x.outbox (publish_batches env bs x).0.outbox
  unfolding publish_batches
  publish_batches-Reaches [] x = Reaches-refl x.outbox
  publish_batches-Reaches (b ∷ bs) x =
      unless_failed-Reaches x.outbox (publish_batches env bs) (publish_batch env b x)
        (publish_batches-Reaches bs) (publish_batch-Reaches b x)

  outbox-emit_poll_metrics :
      (r : World × Option Failure) → (emit_poll_metrics env r).0.outbox ≡ r.0.outbox
  unfolding emit_poll_metrics
  outbox-emit_poll_metrics (x, f) = refl

  -- A polling run, however it ends, changes the outbox by one claim of its worker, and then by
  -- finalizations of single entries by the same worker, as delivered or as failed, at times that its
  -- clock showed, and by nothing else.
  pub publish_pending_messages-Reaches :
      (x : World)
      → (os : List Operation) × All (IsFinalization env) os
        × (run env.outbox env.config (claim env.worker (env.clock x.reads) ∷ os) x.outbox
            ≡ (publish_pending_messages env x).0.outbox)
  unfolding publish_pending_messages run step
  publish_pending_messages-Reaches x =
      let now = env.clock x.reads in
      let claimed =
        claim_processable_outbox_entries env.outbox env.config env.worker now x.outbox in
      let y = record x { reads = x.reads + 1; outbox = claimed.1 } in
      rw outbox-emit_poll_metrics (publish_batches-Reaches (batches claimed.0) y)

  -- A polling run keeps every entry well-formed, whatever the message service answers and whether
  -- or not the run fails.
  pub publish_pending_messages-IsValid :
      (x : World)
      → 0 < env.config.max_attempts
      → All (IsValid env.config.max_attempts) x.outbox
      → All (IsValid env.config.max_attempts) (publish_pending_messages env x).0.outbox
  publish_pending_messages-IsValid x h v =
      let (os, _, e) = publish_pending_messages-Reaches x in
      rw (← e) (
        run_keeps-IsValid env.config env.outbox (claim env.worker (env.clock x.reads) ∷ os) x.outbox
          h v)
