-- ===== src/Outbox.antt =====
-- repos/outbox.js and constants/outbox.js: the outbox entries, how a worker claims them under a
-- lease, and how it finalizes what it claimed. Times are milliseconds.
pub mod Claim
pub mod Create
pub mod Valid
pub mod Effects
pub mod Order
pub mod Frozen
pub mod Runs
use Prim.Native.String
use fcp_sfd_object_processor.Common.Results.{◌>>=◌}
use fcp_sfd_object_processor.Common.{
  ℕ, zero, suc, ◌+◌, String, str_eq, Bool, true, false, ◌&&◌, ◌||◌, Option, none, some, List, [],
  ◌∷◌, ◌++◌, ◌==◌, ltb, leb, if◌then◌else◌, any, length, map, is_empty, Result, ok, err, message,
}
use fcp_sfd_object_processor.Json.{Json, str, oid, is_the_text, or_else, same}
use fcp_sfd_object_processor.Document.{Document}
use fcp_sfd_object_processor.Mongo.{Collection}

pub data Status : Type 0 where
  pending processing sent permanent_failure : Status

abbrev pub is_pending : Status → Bool
is_pending pending = true
is_pending _ = false

abbrev pub is_processing : Status → Bool
is_processing processing = true
is_processing _ = false

abbrev pub is_permanent_failure : Status → Bool
is_permanent_failure permanent_failure = true
is_permanent_failure _ = false

abbrev pub batch_size : ℕ
batch_size = 10

-- DELIVERY_OUTCOME, with `other` for a string that is neither of its values.
pub data DeliveryOutcome : Type 0 where
  succeeded failed : DeliveryOutcome
  other : String → DeliveryOutcome

pub record EntryError : Type 0 where
  pub type : String
  pub code : Option String
  pub reason : String

pub record Entry : Type 0 where
  pub id : ℕ
  pub message_id : ℕ
  pub payload : Document
  pub status : Status
  pub attempts : ℕ
  pub created_at : ℕ
  pub claimed_at : Option ℕ
  pub claimed_until : Option ℕ
  pub claimed_by : Option String
  pub last_attempted_at : Option ℕ
  pub error : Option EntryError

-- the configuration values that the outbox reads
pub record Config : Type 0 where
  pub max_attempts : ℕ
  pub query_limit : ℕ
  pub claim_lease_ms : ℕ
  pub interval_ms : ℕ
  pub drain_timeout_ms : ℕ

-- `entry?.payload?.file?.fileId || entry?.messageId`
abbrev pub entry_id : Entry → Json
entry_id e = or_else e.payload.file.file_id (oid e.message_id)

abbrev pub owned_by : String → Option String → Bool
owned_by worker none = false
owned_by worker (some w) = str_eq w worker

-- `{ $lt: now }` and `{ $gt: now }`: a missing date matches neither.
abbrev pub before : ℕ → Option ℕ → Bool
before now none = false
before now (some t) = ltb t now

abbrev pub after : ℕ → Option ℕ → Bool
after now none = false
after now (some t) = ltb now t

-- createOutboxEntries: an entry for each document whose file is complete. `metadata_ids` are the
-- `insertedIds` of the documents, index by index, and `ids` the identifiers of the new entries.
pub new_entries : ℕ → List ℕ → List ℕ → List Document → List Entry
new_entries now (i ∷ ids) (m ∷ metadata_ids) (d ∷ documents) =
    if is_the_text d.file.file_status "complete"
    then record {
      id = i;
      message_id = m;
      payload = d;
      status = pending;
      attempts = 0;
      created_at = now;
      claimed_at = none;
      claimed_until = none;
      claimed_by = none;
      last_attempted_at = none;
      error = none;
    }
      ∷ new_entries now ids metadata_ids documents
    else new_entries now (i ∷ ids) metadata_ids documents
new_entries now ids metadata_ids documents = []

-- the filter of claimProcessableOutboxEntries
unfoldable pub is_processable : Config → ℕ → Entry → Bool
is_processable cfg now e =
    ltb e.attempts cfg.max_attempts
    && (is_pending e.status || (is_processing e.status && before now e.claimed_until))

-- its update: `$set` and `$inc`
unfoldable pub claim_update : Config → String → ℕ → Entry → Entry
claim_update cfg worker now e = record e {
  status = processing;
  claimed_at = some now;
  claimed_until = some (now + cfg.claim_lease_ms);
  claimed_by = some worker;
  attempts = e.attempts + 1;
}

-- the entry that the caller gets, spread from the entry as it was before
pub claimed_copy : Config → String → ℕ → Entry → Entry
claimed_copy cfg worker now e = record e {
  status = processing;
  attempts = e.attempts + 1;
  claimed_at = some now;
  claimed_until = some (now + cfg.claim_lease_ms);
  claimed_by = some worker;
}

-- the filter of finalizeClaimedOutboxEntries
unfoldable pub is_finalizable : List ℕ → String → ℕ → Entry → Bool
is_finalizable ids worker now e =
    any (λ i. i == e.id) ids
    && is_processing e.status
    && owned_by worker e.claimed_by
    && after now e.claimed_until

unfoldable pub sent_update : ℕ → Entry → Entry
sent_update now e = record e {
  status = sent;
  last_attempted_at = some now;
  claimed_at = none;
  claimed_until = none;
  claimed_by = none;
  error = none;
}

-- buildClaimedFailurePipeline, stage by stage
unfoldable pub failed_update : ℕ → Option EntryError → ℕ → Entry → Entry
failed_update max_attempts error now e = record e {
  last_attempted_at = some now;
  error = elim error [ none ↦ e.error | some x ↦ some x ];
  status = if leb max_attempts e.attempts then permanent_failure else pending;
  claimed_at = none;
  claimed_until = none;
  claimed_by = none;
}

-- `sort({ createdAt: 1 }).limit(1)`, of which only the creation time is read
abbrev oldest : List Entry → Option ℕ
oldest [] = none
oldest (e ∷ es) = elim (oldest es) [
  | none ↦ some e.created_at
  | some t ↦ some (if leb e.created_at t then e.created_at else t)
]

-- The entries that are not finished: `{ $in: [PENDING, PROCESSING] }`.
pub is_backlog : Entry → Bool
is_backlog e = is_pending e.status || is_processing e.status

abbrev unsupported : String → String
unsupported s = String.◌++◌ "Unsupported delivery outcome: " s

-- One round of the claim loop: it ends where no entry was found, and otherwise keeps the copy and
-- goes on with the `rest`.
abbrev claim_next :
    Config
    → String
    → ℕ
    → (List Entry → List Entry × List Entry)
    → Option Entry × List Entry
    → List Entry × List Entry
claim_next cfg worker now rest (none, c) = ([], c)
claim_next cfg worker now rest (some e, c) =
    let (claimed, c') = rest c in (claimed_copy cfg worker now e ∷ claimed, c')

module _ (db : Collection Entry) where
  -- The insertion of createOutboxEntries; with no entry it returns the empty object. The driver is
  -- asked with no unique index.
  pub insert_entries : List Entry → List Entry → Result (List ℕ × List Entry)
  insert_entries [] c = ok ([], c)
  insert_entries (e ∷ es) c = do
    c' ← db.insert_many (λ a b. false) (e ∷ es) c
    if db.acknowledged
        then ok (map (λ (x : Entry). x.id) (e ∷ es), c')
        else err (message "Failed to insert outbox entries")

  pub create_outbox_entries :
      ℕ → List ℕ → List ℕ → List Document → List Entry → Result (List ℕ × List Entry)
  create_outbox_entries now ids metadata_ids documents c =
      insert_entries (new_entries now ids metadata_ids documents) c

  -- the loop of claimProcessableOutboxEntries: `rounds` is what is left of the query limit
  pub claim_loop : Config → String → ℕ → ℕ → List Entry → List Entry × List Entry
  claim_loop cfg worker now zero c = ([], c)
  claim_loop cfg worker now (suc rounds) c =
      claim_next cfg worker now (claim_loop cfg worker now rounds) (
        db.find_one_and_update (λ e. e.created_at) (is_processable cfg now)
          (claim_update cfg worker now) c)

  -- claimProcessableOutboxEntries: the claimed copies, and the entries afterwards
  pub claim_processable_outbox_entries : Config → String → ℕ → List Entry → List Entry × List Entry
  claim_processable_outbox_entries cfg worker now c = claim_loop cfg worker now cfg.query_limit c

  acknowledge : ℕ × List Entry → Result (ℕ × List Entry)
  acknowledge done =
      if db.acknowledged then ok done else err (message "Failed to finalize claimed outbox entries")

  -- finalizeClaimedOutboxEntries: the matched count, and the entries afterwards
  pub finalize_claimed_outbox_entries :
      Config
      → List ℕ
      → String
      → DeliveryOutcome
      → Option EntryError
      → ℕ
      → List Entry
      → Result (ℕ × List Entry)
  unfolding acknowledge
  finalize_claimed_outbox_entries cfg ids worker succeeded error now c =
      acknowledge (db.update_many (is_finalizable ids worker now) (sent_update now) c)
  finalize_claimed_outbox_entries cfg ids worker failed error now c =
      acknowledge (
        db.update_many (is_finalizable ids worker now) (failed_update cfg.max_attempts error now) c)
  finalize_claimed_outbox_entries cfg ids worker (other s) error now c =
      err (message (unsupported s))

  -- getOutboxStatusesByFileIds, projected to the file and the status
  pub outbox_statuses_by_file_ids : List Json → List Entry → List (Json × Status)
  outbox_statuses_by_file_ids [] c = []
  outbox_statuses_by_file_ids (i ∷ ids) c =
      map (λ (e : Entry). (e.payload.file.file_id, e.status))
        (db.find_all (λ e. any (λ j. same j e.payload.file.file_id) (i ∷ ids)) c)

  -- The entries that logTerminalFailuresIfAny reports: none where no entry has used up its
  -- attempts, else the result of the heavier query.
  pub terminal_failures : Config → List Json → List Entry → List Entry
  terminal_failures cfg ids c =
      if is_empty (
        db.find_all
          (λ e. any (λ j. same j e.payload.file.file_id) ids && leb cfg.max_attempts e.attempts) c)
      then []
      else db.find_all
          (λ e.
            any (λ j. same j e.payload.file.file_id) ids
            && is_permanent_failure e.status
            && leb cfg.max_attempts e.attempts)
          c

  -- getPendingOutboxMetrics: how many entries are not finished, and the oldest creation time
  pub pending_outbox_metrics : List Entry → ℕ × Option ℕ
  pending_outbox_metrics c = (length (db.find_all is_backlog c), oldest (db.find_all is_backlog c))
