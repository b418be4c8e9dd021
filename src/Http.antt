-- ===== src/Http.antt =====
-- http/client.js: the retry policy of outbound requests. The fetch library, which is not part of
-- the repository, makes the attempts and calls these hooks. Delays are not modelled, since they are
-- products of floating-point numbers, and of the log lines the duration, the request's URL and the
-- name of an error are left out.
pub mod Attempts
use Prim.Native.Char.{code}
use Prim.Native.String
use fcp_sfd_object_processor.Common.{
  ℕ, zero, suc, ◌+◌, ◌-◌, max, String, Bool, true, false, ◌&&◌, ◌||◌, not, Option, none, some, ◌==◌,
  ltb, leb, if◌then◌else◌, is_empty_text, decimal, List, [], ◌∷◌, any,
}

-- What an attempt can throw: the library's three errors, any other `Error` with its message, and a
-- thrown text.
pub data HttpError : Type 0 where
  abort_error timeout_error network_error plain_error thrown_text : String → HttpError

-- what the library hands to its hooks after an attempt
pub record Context : Type 0 where
  pub attempt : ℕ
  pub error : Option HttpError
  pub status : Option ℕ

pub data Class : Type 0 where
  retryable non_retryable unknown : Class

pub record RetryConfig : Type 0 where
  pub max_attempts : ℕ
  pub unknown_max_attempts : ℕ

-- the state kept for each request, but for its start time
pub record RetryState : Type 0 where
  pub last_attempt : ℕ
  pub final_attempt : Option ℕ
  pub category : Class
  pub terminal_reason : String

abbrev pub built_state : RetryState
built_state = record {
  last_attempt = 0;
  final_attempt = none;
  category = unknown;
  terminal_reason = "unknown_error";
}

abbrev upper : ℕ → ℕ
upper c = if leb b'a' c && leb c b'z' then c - 32 else c

-- the text begins with the code, in either case
abbrev begins : String → String → Bool
begins String.[] s = true
begins (String.◌∷◌ p ps) String.[] = false
begins (String.◌∷◌ p ps) (String.◌∷◌ c s) = (upper (code c) == code p) && begins ps s

abbrev contains : String → String → Bool
contains p String.[] = begins p String.[]
contains p (String.◌∷◌ c s) = begins p (String.◌∷◌ c s) || contains p s

-- RETRYABLE_NETWORK_ERROR
pub is_network_message : String → Bool
is_network_message s =
    any (λ p. contains p s)
      ("ECONNRESET" ∷ "ECONNREFUSED" ∷ "ENOTFOUND" ∷ "ETIMEDOUT" ∷ "EPIPE" ∷ "EAI_AGAIN" ∷ [])

-- classifyResponseStatus
unfoldable pub classify_response_status : ℕ → Class
classify_response_status status =
    if status == 429 || leb 500 status then retryable else non_retryable

abbrev classify_response : Option ℕ → Class
classify_response none = unknown
classify_response (some status) = classify_response_status status

-- classifyError
unfoldable pub classify_error : Context → Class
unfolding classify_response_status
classify_error ctx = elim ctx.error [
  | none ↦ classify_response ctx.status
  | some (abort_error m) ↦ non_retryable
  | some (timeout_error m) ↦ retryable
  | some (network_error m) ↦ retryable
  | some (plain_error m) ↦ if is_network_message m then retryable else classify_response ctx.status
  | some (thrown_text m) ↦ classify_response ctx.status
]

abbrev pub error_text : HttpError → String
error_text (abort_error m) = m
error_text (timeout_error m) = m
error_text (network_error m) = m
error_text (plain_error m) = m
error_text (thrown_text m) = m

abbrev reason_of_error : Option HttpError → String
reason_of_error none = "undefined"
reason_of_error (some e) = error_text e

-- buildTerminalReason
pub build_terminal_reason : Context → String
build_terminal_reason ctx = elim ctx.status [
  | none ↦ reason_of_error ctx.error
  | some status ↦ String.◌++◌ "http_" (decimal status)
]

abbrev is_error_status : Option ℕ → Bool
is_error_status none = false
is_error_status (some status) = leb 400 status

-- isRetryDecisionFailure
unfoldable pub is_retry_decision_failure : Context → Bool
is_retry_decision_failure ctx = elim ctx.error [ some e ↦ true | none ↦ is_error_status ctx.status ]

abbrev is_unknown : Class → Bool
is_unknown unknown = true
is_unknown _ = false

abbrev is_non_retryable : Class → Bool
is_non_retryable non_retryable = true
is_non_retryable _ = false

abbrev pub limit : RetryConfig → Class → ℕ
limit cfg c = if is_unknown c then cfg.unknown_max_attempts else cfg.max_attempts

unfoldable pub will_retry : RetryConfig → Context → Bool
will_retry cfg ctx =
    not (is_non_retryable (classify_error ctx)) && ltb ctx.attempt (limit cfg (classify_error ctx))

-- shouldRetryHook: the decision, and the state of the request
unfoldable pub should_retry : RetryConfig → Context → RetryState → Bool × RetryState
unfolding will_retry is_retry_decision_failure
should_retry cfg ctx st = if not (is_retry_decision_failure ctx) then (false, st) else (
  will_retry cfg ctx,
  record {
    last_attempt = max st.last_attempt ctx.attempt;
    final_attempt = if will_retry cfg ctx then st.final_attempt else some ctx.attempt;
    category = classify_error ctx;
    terminal_reason = build_terminal_reason ctx;
  },
)

-- the attempts that onCompleteHook reports
unfoldable pub reported_attempts : RetryState → ℕ
reported_attempts st = elim st.final_attempt [ none ↦ max 1 (st.last_attempt + 1) | some n ↦ n ]

-- toMetadataCategory
unfoldable pub to_metadata_category : Class → String
to_metadata_category retryable = "retryable"
to_metadata_category non_retryable = "non-retryable"
to_metadata_category unknown = "unknown"

-- what logRetryDecision logs
pub record RetryDecision : Type 0 where
  pub reason : String
  pub attempts : ℕ
  pub category : String
  pub max_attempts : ℕ
  pub will_retry : Bool

-- the line that shouldRetryHook logs, if any
unfoldable pub logged_decision : RetryConfig → Context → Option RetryDecision
unfolding is_retry_decision_failure will_retry
logged_decision cfg ctx =
    if not (is_retry_decision_failure ctx)
    then none
    else some (record {
      reason = build_terminal_reason ctx;
      attempts = ctx.attempt;
      category = to_metadata_category (classify_error ctx);
      max_attempts = limit cfg (classify_error ctx);
      will_retry = will_retry cfg ctx;
    })

-- what attachRetryMetadata attaches to an error, and the log lines carry
pub record RetryMetadata : Type 0 where
  pub attempts : ℕ
  pub category : String
  pub terminal_reason : String

-- the error of a failed request with its message, or the status of one that recovered
pub data HttpLog : Type 0 where
  request_failed : RetryMetadata → String → HttpLog
  request_recovered : RetryMetadata → Option ℕ → HttpLog

pub record Completion : Type 0 where
  pub attached : Option RetryMetadata
  pub logged : Option HttpLog

abbrev pub metadata_of : RetryState → RetryMetadata
metadata_of st = record {
  attempts = reported_attempts st;
  category = to_metadata_category st.category;
  terminal_reason = st.terminal_reason;
}

-- A thrown text is no object to attach to, and an empty one is no error to the hook.
abbrev pub attach_to : HttpError → RetryMetadata → Option RetryMetadata
attach_to (thrown_text m) metadata = none
attach_to e metadata = some metadata

abbrev pub is_thrown : Option HttpError → Bool
is_thrown none = false
is_thrown (some (thrown_text m)) = not (is_empty_text m)
is_thrown (some e) = true

abbrev succeeded : RetryMetadata → Option ℕ → Completion
succeeded metadata status = record {
  attached = none;
  logged = if ltb 1 metadata.attempts then some (request_recovered metadata status) else none;
}

abbrev failed_with : RetryMetadata → HttpError → Completion
failed_with metadata e = record {
  attached = attach_to e metadata;
  logged = some (request_failed metadata (error_text e));
}

abbrev complete : RetryMetadata → Option HttpError → Option ℕ → Completion
complete metadata none status = succeeded metadata status
complete metadata (some e) status =
    if is_thrown (some e) then failed_with metadata e else succeeded metadata status

abbrev state_or_built : Option RetryState → RetryState
state_or_built none = built_state
state_or_built (some st) = st

-- onCompleteHook
unfoldable pub on_complete : Option RetryState → Option HttpError → Option ℕ → Completion
unfolding reported_attempts to_metadata_category
on_complete st error status = complete (metadata_of (state_or_built st)) error status

-- the `retries` that makeClient configures
unfoldable pub retries : RetryConfig → ℕ
retries cfg = max cfg.max_attempts cfg.unknown_max_attempts - 1
