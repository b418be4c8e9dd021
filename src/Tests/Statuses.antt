-- ===== src/Tests/Statuses.antt =====
-- An instance of the theorem on the query of the status records.
use fcp_sfd_object_processor.Common.{
  ◌≡◌, ◌≤◌, ◌⊎◌, String, true, none, List, [], ◌∷◌, In, length, arith, refl, ℕ,
}
use fcp_sfd_object_processor.Json.{str}
use fcp_sfd_object_processor.Mongo.{IsOldestFirst}
use fcp_sfd_object_processor.Mongo.Lists.{list_collection}
use fcp_sfd_object_processor.Status.{StatusRecord}
use fcp_sfd_object_processor.Status.Query.{
  IsStoredIn, StatusView, project, get_status_by_correlation_id,
  get_status_by_correlation_id_complete,
}

abbrev record_at : String → ℕ → StatusRecord
record_at correlation_id time = record {
  correlation_id = correlation_id;
  sbi = str "105000000";
  file_id = str "file";
  timestamp = time;
  validated = true;
  errors = none;
}

abbrev stored : List StatusRecord
stored = record_at "mine" 3 ∷ record_at "other" 2 ∷ record_at "mine" 1 ∷ []

abbrev read : List StatusView
read = (get_status_by_correlation_id list_collection 5 "mine" stored).0

get_status_by_correlation_id_complete_example :
    (length read ≤ 5)
    × ((r : StatusView) → In r read → IsStoredIn "mine" stored r)
    × (((get_status_by_correlation_id list_collection 5 "mine" stored).1 ≡ true)
        ⊎ (IsOldestFirst (λ r. r.timestamp) read
            × ((r : StatusRecord) → In r stored → r.correlation_id ≡ "mine" → In (project r) read)))
get_status_by_correlation_id_complete_example =
    get_status_by_correlation_id_complete list_collection 5 "mine" stored (omega arith)

read_sorted : read ≡ project (record_at "mine" 1) ∷ project (record_at "mine" 3) ∷ []
unfolding get_status_by_correlation_id
read_sorted = refl
