-- ===== src/Outbox/Runs.antt =====
-- Explicit sequences of the operations on the outbox, by any workers at any times. An operation
-- that throws runs in a transaction, so it leaves the entries as they were.
use fcp_sfd_object_processor.Common.{ℕ, String, List, [], ◌∷◌, Option, Result, ok, err}
use fcp_sfd_object_processor.Document.{Document}
use fcp_sfd_object_processor.Mongo.{Collection}
use fcp_sfd_object_processor.Outbox.{
  Entry, EntryError, Config, DeliveryOutcome, create_outbox_entries,
  claim_processable_outbox_entries, finalize_claimed_outbox_entries,
}

pub data Operation : Type 0 where
  -- the time, the new identifiers, those of the documents, and the documents
  create : ℕ → List ℕ → List ℕ → List Document → Operation
  claim : String → ℕ → Operation
  finalize : List ℕ → String → DeliveryOutcome → Option EntryError → ℕ → Operation

abbrev pub after_result : {A : Type 0} → List Entry → Result (A × List Entry) → List Entry
after_result c (ok (a, c')) = c'
after_result c (err f) = c

module _ (db : Collection Entry) (cfg : Config) where
  unfoldable pub step : Operation → List Entry → List Entry
  step (create now ids metadata_ids documents) c =
      after_result c (create_outbox_entries db now ids metadata_ids documents c)
  step (claim worker now) c = (claim_processable_outbox_entries db cfg worker now c).1
  step (finalize ids worker outcome error now) c =
      after_result c (finalize_claimed_outbox_entries db cfg ids worker outcome error now c)

  unfoldable pub run : List Operation → List Entry → List Entry
  run [] c = c
  run (o ∷ os) c = run os (step o c)
