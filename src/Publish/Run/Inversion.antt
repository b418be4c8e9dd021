-- ===== src/Publish/Run/Inversion.antt =====
-- What a finalization of a list of entries that returns has done.
use fcp_sfd_object_processor.Common.{
  ℕ, ◌+◌, ◌≡◌, ap, ◌∙◌, inl, inr, Bool, List, [], ◌∷◌, arith, ok, Result-cases, count,
}
use fcp_sfd_object_processor.Mongo.{replace_matching}
use fcp_sfd_object_processor.Outbox.{
  Status, DeliveryOutcome, Entry, is_finalizable, finalize_claimed_outbox_entries,
}
use fcp_sfd_object_processor.Outbox.Effects.{outcome_update, finalize-eq-ok}
use fcp_sfd_object_processor.Publish.Env.{Env, FailedResult}
use fcp_sfd_object_processor.Publish.Run.{
  Finalization, error_for, status_for, sort_result, finalize_entries,
}

pub outbox-sort_result :
    (matched : ℕ) (e : Entry) (s : Status) (later : Finalization)
    → (sort_result matched e s later).outbox ≡ later.outbox
outbox-sort_result matched e s later = ground arith

module _ (env : Env) (outcome : DeliveryOutcome) (failed_results : List FailedResult) where
  abbrev pub matches : ℕ → Entry → Entry → Bool
  matches reads e d = is_finalizable (e.id ∷ []) env.worker (env.clock reads) d

  abbrev pub updated : ℕ → Entry → Entry → Entry
  updated reads e d =
      outcome_update env.config outcome (error_for outcome e failed_results) (env.clock reads) d

  -- the entries after the finalization of `e`
  abbrev pub next : ℕ → Entry → List Entry → List Entry
  next reads e c = replace_matching (matches reads e) (updated reads e) c

  pub finalize_entries-cons :
      (e : Entry) (es : List Entry) (reads : ℕ) (c : List Entry) (fin : Finalization)
      → finalize_entries env outcome failed_results (e ∷ es) reads c ≡ ok fin
      → (later : Finalization) × (finalize_entries env outcome failed_results es
            (reads + 1)
            (next reads e c)
          ≡ ok later)
        × (fin
            ≡ sort_result
                (count (matches reads e) c)
                e
                (status_for env.config.max_attempts outcome e)
                later)
  unfolding finalize_entries
  finalize_entries-cons e es reads c fin h =
      elim (Result-cases (
        finalize_claimed_outbox_entries env.outbox env.config (e.id ∷ []) env.worker outcome
          (error_for outcome e failed_results) (env.clock reads) c)) [
            | inr (f, eq) ↦ absurd (cc (rw eq at h))
            | inl (r, eq) ↦
                let same =
                  finalize-eq-ok env.outbox env.config (e.id ∷ []) env.worker outcome
                    (error_for outcome e failed_results) (env.clock reads) c r eq in
                let h' = rw (eq ∙ ap ok same) at h in
                elim (Result-cases
                  (finalize_entries env outcome failed_results es (reads + 1) (next reads e c))) [
                    | inr (f, eq') ↦ absurd (cc (rw eq' at h'))
                    | inl (later, eq') ↦ (later, eq', cc (rw eq' at h'))
                  ]
          ]
