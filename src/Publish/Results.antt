-- ===== src/Publish/Results.antt =====
-- What the answer of the message service says of each entry of a batch.
use fcp_sfd_object_processor.Common.{
  ℕ, String, Option, none, some, List, [], ◌∷◌, leb, if◌then◌else◌, find, map, is_empty_text,
  flat_map,
}
use fcp_sfd_object_processor.Json.{Json, same}
use fcp_sfd_object_processor.Outbox.{
  Status, pending, permanent_failure, EntryError, Entry, entry_id,
}
use fcp_sfd_object_processor.Publish.Env.{FailedResult, PublishResults, Answer, answered, rejected}

-- The catch of publishDocumentUploadMessageBatch reports every entry as failed.
unfoldable pub publish_results : List Entry → Answer → PublishResults
publish_results batch (answered r) = r
publish_results batch (rejected name reason) = record {
  successful = [];
  failed = map (λ e. record { id = entry_id e; code = some name; reason = some reason }) batch;
}

-- `a || b` on texts that may be missing
abbrev text_or : Option String → String → String
text_or none b = b
text_or (some a) b = if is_empty_text a then b else a

abbrev given_text : Option String → Option String
given_text none = none
given_text (some a) = if is_empty_text a then none else some a

abbrev error_of_result : Option FailedResult → EntryError
error_of_result none = record {
  type = "outbox_publish_failure";
  code = none;
  reason = "failed_to_publish";
}
error_of_result (some r) = record {
  type = "outbox_publish_failure";
  code = given_text r.code;
  reason = text_or r.reason (text_or r.code "failed_to_publish");
}

-- getFailureDetails and buildEntryError
pub entry_error : Entry → List FailedResult → EntryError
entry_error e failed_results =
    error_of_result (find (λ (r : FailedResult). same r.id (entry_id e)) failed_results)

-- the `Map` of the batch by identifier, in which the last entry of an identifier stands
abbrev pub entry_with_id : Json → List Entry → Option Entry
entry_with_id i [] = none
entry_with_id i (e ∷ es) = elim (entry_with_id i es) [
  | none ↦ if same i (entry_id e) then some e else none
  | some x ↦ some x
]

abbrev pub to_list : Option Entry → List Entry
to_list none = []
to_list (some e) = e ∷ []

-- mapPublishResultsToEntries: a result with no entry in the batch is dropped
unfoldable pub entries_of_results : List Entry → List Json → List Entry
entries_of_results batch ids = flat_map (λ i. to_list (entry_with_id i batch)) ids

-- resolveFailedStatus
pub resolve_failed_status : ℕ → ℕ → Status
resolve_failed_status attempts max_attempts =
    if leb max_attempts attempts then permanent_failure else pending
