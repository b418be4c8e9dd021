-- ===== src/Tests/Publish.antt =====
-- Instances of the theorems on the polling run, and on the loop around it.
use fcp_sfd_object_processor.Common.{ℕ, ◌≤◌, ◌≡◌, ◌⊎◌, In, false, some, List, [], ◌∷◌, All, arith}
use fcp_sfd_object_processor.Mongo.Lists.{list_collection}
use fcp_sfd_object_processor.Outbox.{processing, sent, Entry}
use fcp_sfd_object_processor.Publish.Env.{answered, Env, World}
use fcp_sfd_object_processor.Publish.Run.{publish_batch, publish_pending_messages}
use fcp_sfd_object_processor.Publish.Run.Confirmed.{publish_batch-IsConfirmed}
use fcp_sfd_object_processor.Publish.Run.Answered.{IsConfirmed}
use fcp_sfd_object_processor.Publish.Message.{build_messages, request_entries}
use fcp_sfd_object_processor.Outbox.Runs.{Operation, claim, run}
use fcp_sfd_object_processor.Json.{str}
use fcp_sfd_object_processor.Publish.Run.Refines.{IsFinalization, publish_pending_messages-Reaches}
use fcp_sfd_object_processor.Outbox.Valid.{IsValid}
use fcp_sfd_object_processor.Runner.{Loop, initial, start, timer_fires, run_ends, stop, react_all}
use fcp_sfd_object_processor.Runner.Laws.{react_all-stop}
use fcp_sfd_object_processor.Tests.Data.{settings, entry_in}

-- the message service confirms the file "one"
abbrev env : Env
env = record {
  config = settings;
  worker = "worker";
  outbox = list_collection;
  metadata = list_collection;
  clock = λ n. 1000;
  calendar = λ t. (1, 0, 2026);
  iso_text = λ t. "2026-01-01T00:00:00.000Z";
  base_url = "http://localhost";
  send = λ r. answered (record { successful = str "one" ∷ []; failed = [] });
}

abbrev batch : List Entry
batch = entry_in processing 1 (some "worker") (some 60000) ∷ []

abbrev world : World
world = record {
  outbox = batch;
  metadata = [];
  reads = 0;
  requests = [];
  audits = [];
  metrics = [];
}

entry_in-IsValid : IsValid 3 (entry_in processing 1 (some "worker") (some 60000))
entry_in-IsValid = record {
  within = omega arith;
  fits = (omega arith, (λ e. cc e), (λ e. cc e), (λ e. cc e));
}

publish_batch-IsConfirmed_example :
    All
      (λ d.
        d.status ≡ sent
        → In d batch
          ⊎ IsConfirmed (env.send (request_entries (build_messages env 0 batch))) batch d)
      (publish_batch env batch world).0.outbox
publish_batch-IsConfirmed_example = publish_batch-IsConfirmed env batch world

publish_pending_messages-Reaches_example :
    (os : List Operation) × All (IsFinalization env) os
    × (run list_collection settings (claim "worker" 1000 ∷ os) batch
        ≡ (publish_pending_messages env world).0.outbox)
publish_pending_messages-Reaches_example = publish_pending_messages-Reaches env world

abbrev claimed : List ℕ
claimed = 1 ∷ 2 ∷ 3 ∷ 4 ∷ 5 ∷ 6 ∷ 7 ∷ 8 ∷ 9 ∷ 10 ∷ 11 ∷ 12 ∷ []

abbrev one_run : Loop
one_run = react_all (start ∷ []) initial

react_all-stop_example :
    ((react_all (stop ∷ run_ends ∷ timer_fires ∷ start ∷ []) one_run).timer ≡ false)
    × ((react_all (stop ∷ run_ends ∷ timer_fires ∷ start ∷ []) one_run).started ≡ one_run.started)
    × ((react_all (stop ∷ run_ends ∷ timer_fires ∷ start ∷ []) one_run).in_progress
        ≤ one_run.in_progress)
react_all-stop_example = react_all-stop (run_ends ∷ timer_fires ∷ start ∷ []) one_run
