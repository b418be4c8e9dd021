-- ===== src/Tests/Clients.antt =====
-- Instances of the theorems on the retry policy and on the verdict of an upload.
use fcp_sfd_object_processor.Common.{
  ◌≡◌, ◌≤◌, max, ltb, if◌then◌else◌, refl, true, false, none, some, ◌↔◌, [], ◌∷◌,
}
use fcp_sfd_object_processor.Json.{str}
use fcp_sfd_object_processor.Outbox.{sent}
use fcp_sfd_object_processor.Verdict.{accepted, Reads, local_verdict}
use fcp_sfd_object_processor.Verdict.Laws.{IsAccepted, local_verdict-accepted_iff}
use fcp_sfd_object_processor.Http.{
  Context, timeout_error, plain_error, will_retry, is_retry_decision_failure, classify_error,
  classify_response_status, RetryConfig, RetryState, built_state, should_retry, metadata_of,
  on_complete, attach_to, request_recovered, request_failed, error_text,
}
use fcp_sfd_object_processor.Http.Attempts.{Attempting, first, again, stopped, on_complete-reported}
use fcp_sfd_object_processor.Tests.Data.{metadata}

abbrev policy : RetryConfig
policy = record { max_attempts = 3; unknown_max_attempts = 2 }

abbrev timed_out_context : Context
timed_out_context = record { attempt = 1; error = some (timeout_error "timeout"); status = none }

abbrev unavailable : Context
unavailable = record { attempt = 2; error = none; status = some 503 }

abbrev refused_context : Context
refused_context = record { attempt = 2; error = none; status = some 404 }

abbrev after_timeout : RetryState
after_timeout = (should_retry policy timed_out_context built_state).1

second_attempt : Attempting policy 2 after_timeout
unfolding should_retry will_retry is_retry_decision_failure classify_error
second_attempt = again timed_out_context first refl refl

refused-stops : (should_retry policy refused_context after_timeout).0 ≡ false
unfolding should_retry will_retry is_retry_decision_failure classify_error classify_response_status
refused-stops = refl

-- the hook ends the request at its second attempt, before the limit
abbrev after_refusal : RetryState
after_refusal = (should_retry policy refused_context after_timeout).1

on_complete-reported_example :
    ((metadata_of after_refusal).attempts ≡ 2)
    × (2 ≤ max 1 (max 3 2))
    × (on_complete (some after_refusal) none (some 404) ≡ record {
      attached = none;
      logged =
          if ltb 1 2 then some (request_recovered (metadata_of after_refusal) (some 404)) else none;
    })
    × (on_complete (some after_refusal) (some (plain_error "HTTP 404")) (some 404) ≡ record {
      attached = attach_to (plain_error "HTTP 404") (metadata_of after_refusal);
      logged =
          some (request_failed (metadata_of after_refusal) (error_text (plain_error "HTTP 404")));
    })
on_complete-reported_example =
    on_complete-reported policy 2 after_refusal (plain_error "HTTP 404") (some 404)
      (stopped refused_context second_attempt refl refused-stops) refl

abbrev reads : Reads
reads = record {
  session = some (record {
    upload_id = str "upload";
    journey_id = some "journey";
    metadata = metadata;
    timestamp = 0;
  });
  statuses = λ j.
      record {
        correlation_id = j;
        sbi = str "105000000";
        file_id = str "one";
        timestamp = 1;
        validated = true;
        errors = none;
      }
      ∷ [];
  published = λ is. (str "one", some 5) ∷ [];
  delivery = λ is. (str "one", sent) ∷ [];
}

local_verdict-accepted_iff_example : (local_verdict reads ≡ accepted) ↔ IsAccepted reads
local_verdict-accepted_iff_example = local_verdict-accepted_iff reads
