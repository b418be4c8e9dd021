-- ===== src/Publish/Run.antt =====
-- publish-pending-messages.js: the polling run.
pub mod Batches
pub mod Inversion
pub mod Answered
pub mod Confirmed
pub mod Refines
use Prim.Native.String
use fcp_sfd_object_processor.Common.{
  ℕ, zero, suc, ◌+◌, ◌-◌, ◌*◌, String, Bool, true, false, ◌&&◌, ◌||◌, not, Option, none, some, List,
  [], ◌∷◌, ◌++◌, ◌==◌, leb, if◌then◌else◌, any, filter, find, length, map, is_empty, take, drop,
  decimal, is_empty_text, flat_map, count, Result, ok, err, Failure,
}
use fcp_sfd_object_processor.Common.Results.{◌>>=◌}
use fcp_sfd_object_processor.Json.{Json, undefined, oid, or_else, same, get, text_of}
use fcp_sfd_object_processor.Audit.{
  AuditEvent, failed as action_failed, failure, build_audit_accounts,
}
use fcp_sfd_object_processor.Document.{Document, Stored}
use fcp_sfd_object_processor.Mongo.{Collection}
use fcp_sfd_object_processor.Outbox.{
  Status, pending, sent, permanent_failure, is_permanent_failure, batch_size, DeliveryOutcome,
  succeeded, failed, other, EntryError, Entry, Config, entry_id, claim_processable_outbox_entries,
  finalize_claimed_outbox_entries, terminal_failures, pending_outbox_metrics,
}
use fcp_sfd_object_processor.Publish.Env.{
  Message, RequestEntry, FailedResult, PublishResults, Answer, answered, rejected, Env, Metric,
  poll, publish_failed_retryable, publish_failed_permanent, pending_count, oldest_pending_age,
  World,
}
use fcp_sfd_object_processor.Publish.Message.{build_messages, request_entries}
use fcp_sfd_object_processor.Publish.Results.{
  publish_results, entry_error, entries_of_results, resolve_failed_status,
}
use fcp_sfd_object_processor.Metadata.{bulk_update_published_at_date}

-- What finalizeEntries returns, with how often the clock was read and the entries afterwards.
pub record Finalization : Type 0 where
  pub finalized : List Entry
  pub rejected : List Entry
  pub reads : ℕ
  pub outbox : List Entry

abbrev is_succeeded : DeliveryOutcome → Bool
is_succeeded succeeded = true
is_succeeded _ = false

abbrev is_failed : DeliveryOutcome → Bool
is_failed failed = true
is_failed _ = false

-- the error that is recorded, and the status that the run reports for a finalized entry
abbrev error_for : DeliveryOutcome → Entry → List FailedResult → Option EntryError
error_for outcome e failed_results =
    if is_failed outcome then some (entry_error e failed_results) else none

abbrev pub status_for : ℕ → DeliveryOutcome → Entry → Status
status_for max_attempts outcome e =
    if is_succeeded outcome then sent else resolve_failed_status e.attempts max_attempts

-- `result.matchedCount === 1`
abbrev sort_result : ℕ → Entry → Status → Finalization → Finalization
sort_result matched e status later =
    if matched == 1
    then record later { finalized = record e { status = status } ∷ later.finalized }
    else record later { rejected = e ∷ later.rejected }

-- what the transaction of one batch leaves
pub record Committed : Type 0 where
  pub succeeded_entries : Finalization
  pub failed_entries : Finalization
  pub reads : ℕ
  pub metadata : List Stored

-- `failure.message || errMsg`
abbrev terminal_reason : Option EntryError → String
terminal_reason none = "Failed to send message"
terminal_reason (some x) = if is_empty_text x.reason then "Failed to send message" else x.reason

abbrev terminal_code : Option EntryError → Option String
terminal_code none = none
terminal_code (some x) = x.code

-- the audit event of an entry that failed for good
abbrev pub terminal_audit : Entry → AuditEvent
terminal_audit e = record {
  correlation_id = e.payload.messaging.correlation_id;
  action = action_failed;
  entity_id = or_else e.payload.file.file_id (oid e.id);
  accounts = build_audit_accounts (get e.payload.metadata "sbi") (get e.payload.metadata "crn");
  status = failure;
  reason = terminal_reason e.error;
  code = terminal_code e.error;
  attempts = some e.attempts;
}

-- How many entries: a counter is written only for at least one.
abbrev counted : (ℕ → Metric) → ℕ → List Metric
counted metric zero = []
counted metric (suc n) = metric (suc n) ∷ []

-- `for (let i = 0; i < length; i += BATCH_SIZE)` with `slice(i, i + BATCH_SIZE)`, on fuel
pub batches_from : {A : Type 0} → ℕ → List A → List (List A)
batches_from zero xs = []
batches_from (suc fuel) [] = []
batches_from (suc fuel) (x ∷ xs) =
    take batch_size (x ∷ xs) ∷ batches_from fuel (drop batch_size (x ∷ xs))

-- a round takes an entry at least, so that as many rounds as entries are enough
pub batches : {A : Type 0} → List A → List (List A)
unfolding batches_from
batches xs = batches_from (length xs) xs

-- the error of one batch ends the run
abbrev unless_failed :
    (World → World × Option Failure) → World × Option Failure → World × Option Failure
unless_failed rest (w, none) = rest w
unless_failed rest (w, some f) = (w, some f)

module _ (env : Env) where
  -- finalizeEntries, one entry at a time
  pub finalize_entries :
      DeliveryOutcome → List FailedResult → List Entry → ℕ → List Entry → Result Finalization
  finalize_entries outcome failed_results [] reads c =
      ok (record { finalized = []; rejected = []; reads = reads; outbox = c })
  finalize_entries outcome failed_results (e ∷ es) reads c = do
    (matched, c') ←
        finalize_claimed_outbox_entries env.outbox env.config (e.id ∷ []) env.worker outcome
          (error_for outcome e failed_results) (env.clock reads) c
    later ← finalize_entries outcome failed_results es (reads + 1) c'
    ok (sort_result matched e (status_for env.config.max_attempts outcome e) later)

  abbrev file_ids : List Entry → List Json
  file_ids es = map entry_id es

  -- bulkUpdatePublishedAtDate is called for at least one finalized entry, and reads the clock.
  publish_dates : List Entry → ℕ → List Stored → Result (ℕ × List Stored)
  publish_dates [] reads metadata = ok (reads, metadata)
  publish_dates (e ∷ es) reads metadata = do
    metadata' ←
        bulk_update_published_at_date env.metadata (env.clock reads) (file_ids (e ∷ es)) metadata
    ok (reads + 1, metadata')

  -- The body of the transaction. A thrown error aborts it: nothing of what it wrote is kept.
  pub commit_batch :
      List Entry → List Entry → List FailedResult → ℕ → List Entry → List Stored → Result Committed
  unfolding finalize_entries publish_dates
  commit_batch successful_entries failed_entries failed_results reads outbox metadata = do
    good ← finalize_entries succeeded [] successful_entries reads outbox
    bad ← finalize_entries failed failed_results failed_entries good.reads good.outbox
    (reads', metadata') ← publish_dates good.finalized bad.reads metadata
    ok (record {
      succeeded_entries = good;
      failed_entries = bad;
      reads = reads';
      metadata = metadata';
    })

  -- handleFailedEntries with logTerminalFailuresIfAny
  pub handle_failed_entries : List Entry → World → World
  handle_failed_entries [] w = w
  handle_failed_entries (e ∷ es) w = record w {
    metrics =
        w.metrics
        ++ (counted publish_failed_retryable
              (count (λ (x : Entry). not (is_permanent_failure x.status)) (e ∷ es))
            ++ counted publish_failed_permanent
                (count (λ (x : Entry). is_permanent_failure x.status) (e ∷ es)));
    audits =
        w.audits
        ++ map terminal_audit
            (terminal_failures env.outbox env.config (file_ids (e ∷ es)) w.outbox);
  }

  after_commit : World → Result Committed → World × Option Failure
  after_commit w (err f) = (w, some f)
  after_commit w (ok done) = (
    handle_failed_entries done.failed_entries.finalized (record w {
      outbox = done.failed_entries.outbox;
      metadata = done.metadata;
      reads = done.reads;
    }),
    none,
  )

  -- One round of the batch loop: the message service has the request, whatever happens later.
  pub publish_batch : List Entry → World → World × Option Failure
  unfolding commit_batch after_commit handle_failed_entries
  publish_batch batch w =
      let request = request_entries (build_messages env w.reads batch) in
      let results = publish_results batch (env.send request) in
      after_commit
        (record w { reads = w.reads + 2 * length batch; requests = w.requests ++ (request ∷ []) })
        (commit_batch (entries_of_results batch results.successful)
          (entries_of_results batch (map (λ (r : FailedResult). r.id) results.failed))
          results.failed (w.reads + 2 * length batch) w.outbox w.metadata)

  pub publish_batches : List (List Entry) → World → World × Option Failure
  publish_batches [] w = (w, none)
  publish_batches (b ∷ bs) w = unless_failed (publish_batches bs) (publish_batch b w)

  age : ℕ → Option ℕ → ℕ
  age now none = 0
  age now (some t) = now - t

  abbrev is_ok : Option Failure → Bool
  is_ok none = true
  is_ok (some f) = false

  -- emitPollMetrics, where its query does not reject (a rejection is only logged); a negative age is
  -- written as zero, as `-` does
  emit_poll_metrics : World × Option Failure → World × Option Failure
  unfolding age
  emit_poll_metrics (w, result) =
      let (pending_entries, oldest_created) = pending_outbox_metrics env.outbox w.outbox in
      (
        record w {
          reads = w.reads + 1;
          metrics =
              w.metrics
              ++ (poll (is_ok result)
                  ∷ pending_count pending_entries
                  ∷ oldest_pending_age (age (env.clock w.reads) oldest_created)
                  ∷ []);
        },
        result,
      )

  -- publishPendingMessages: the state afterwards, and the error that it rejects with
  pub publish_pending_messages : World → World × Option Failure
  unfolding emit_poll_metrics publish_batches batches publish_batch
  publish_pending_messages w =
      let (claimed, outbox) =
        claim_processable_outbox_entries env.outbox env.config env.worker (env.clock w.reads)
          w.outbox in
      emit_poll_metrics
        (publish_batches (batches claimed) (record w { reads = w.reads + 1; outbox = outbox }))
