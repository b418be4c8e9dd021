-- ===== src/Tests/Outbox.antt =====
-- Instances of the theorems on the outbox.
use fcp_sfd_object_processor.Common.{
  ◌-◌, min, ◌≡◌, refl, none, some, List, [], ◌∷◌, arith, All, In, here, length, count,
}
use fcp_sfd_object_processor.Document.{Document}
use fcp_sfd_object_processor.Mongo.{Collection}
use fcp_sfd_object_processor.Mongo.Lists.{list_collection}
use fcp_sfd_object_processor.Outbox.{
  pending, processing, sent, succeeded, failed, Entry, is_processable, claim_loop,
}
use fcp_sfd_object_processor.Outbox.Runs.{Operation, create, claim, finalize, run}
use fcp_sfd_object_processor.Outbox.Valid.{IsValid, run-IsValid}
use fcp_sfd_object_processor.Outbox.Frozen.{run-terminal, run-stranded, run-leased}
use fcp_sfd_object_processor.Outbox.Claim.{claim_loop-counts}
use fcp_sfd_object_processor.Outbox.Order.{NoOlder, IsSortedFrom, latest, claim_loop-ordered}
use fcp_sfd_object_processor.Tests.Data.{settings, document, entry_in}

abbrev db : Collection Entry
db = list_collection

abbrev documents : List Document
documents = document "one" ∷ document "two" ∷ []

abbrev operations : List Operation
operations =
    create 100 (7 ∷ 8 ∷ []) (1 ∷ 2 ∷ []) documents
    ∷ claim "worker" 200
    ∷ finalize (7 ∷ []) "worker" succeeded none 300
    ∷ finalize (8 ∷ []) "worker" failed none 300
    ∷ claim "other" 90000
    ∷ []

run-IsValid_example : All (IsValid 3) (run db settings operations [])
run-IsValid_example = run-IsValid settings db operations (omega arith)

abbrev sent_entry : Entry
sent_entry = entry_in sent 1 none none

run-terminal_example : In sent_entry (run db settings operations (sent_entry ∷ []))
run-terminal_example = run-terminal db settings sent_entry operations (sent_entry ∷ []) refl here

abbrev stranded_entry : Entry
stranded_entry = entry_in processing 3 (some "dead") (some 90000)

abbrev late_operations : List Operation
late_operations = claim "other" 90001 ∷ finalize (7 ∷ []) "dead" failed none 90002 ∷ []

run-stranded_example : In stranded_entry (run db settings late_operations (stranded_entry ∷ []))
run-stranded_example =
    run-stranded db settings stranded_entry late_operations (stranded_entry ∷ []) 90000
      (omega arith) refl (omega arith, (omega arith, tt)) here

abbrev leased_entry : Entry
leased_entry = entry_in processing 1 (some "owner") (some 90000)

abbrev early_operations : List Operation
early_operations = claim "other" 89999 ∷ finalize (7 ∷ []) "other" failed none 90000 ∷ []

run-leased_example : In leased_entry (run db settings early_operations (leased_entry ∷ []))
run-leased_example =
    run-leased db settings leased_entry early_operations (leased_entry ∷ []) "owner" 90000 refl refl
      refl ((omega arith, tt), ((omega arith, refl), tt)) here

abbrev two_entries : List Entry
two_entries = entry_in pending 0 none none ∷ stranded_entry ∷ []

claim_loop-counts_example :
    (length (claim_loop db settings "worker" 200 5 two_entries).0
      ≡ min 5 (count (is_processable settings 200) two_entries))
    × (count (is_processable settings 200) (claim_loop db settings "worker" 200 5 two_entries).1
        ≡ count (is_processable settings 200) two_entries - 5)
claim_loop-counts_example = claim_loop-counts db settings "worker" 200 5 two_entries

claim_loop-ordered_example :
    IsSortedFrom db settings "worker" 200 0 (claim_loop db settings "worker" 200 1 two_entries).0
    × NoOlder db settings "worker" 200
        (latest db settings "worker" 200 0 (claim_loop db settings "worker" 200 1 two_entries).0)
        (claim_loop db settings "worker" 200 1 two_entries).1
claim_loop-ordered_example = claim_loop-ordered db settings "worker" 200 1 two_entries
