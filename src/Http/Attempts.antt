-- ===== src/Http/Attempts.antt =====
-- The attempts that are made are bounded, and the attempts that are reported are those made.
use fcp_sfd_object_processor.Common.{
  ℕ, suc, ◌+◌, ◌≤◌, ◌<◌, max, ◌≡◌, refl, inl, inr, true, false, ◌&&◌, ◌||◌, none, some, arith, ltb,
  leb, Option, if◌then◌else◌, ◌==◌, Bool-cases,
}
use fcp_sfd_object_processor.Http.{
  Context, Class, retryable, non_retryable, unknown, RetryConfig, RetryState, built_state,
  classify_error, is_retry_decision_failure, limit, will_retry, should_retry, reported_attempts,
  HttpError, is_thrown, metadata_of, attach_to, request_recovered, request_failed, error_text,
  on_complete,
}

-- Attempt `n` of a request is under way, with the state that the earlier attempts left. The library
-- makes another attempt only where the hook says so.
pub data Attempting (cfg : RetryConfig) : ℕ → RetryState → Type 0 where
  first : Attempting cfg 1 built_state
  again :
      {n : ℕ} {st : RetryState} (ctx : Context)
      → Attempting cfg n st
      → ctx.attempt ≡ n
      → (should_retry cfg ctx st).0 ≡ true
      → Attempting cfg (suc n) (should_retry cfg ctx st).1

module _ (cfg : RetryConfig) where
  abbrev Counts : ℕ → RetryState → Type 0
  Counts n st =
      (st.final_attempt ≡ none)
      × (st.last_attempt + 1 ≤ n)
      × (n ≤ max 1 (st.last_attempt + 1))
      × (n ≤ max 1 (max cfg.max_attempts cfg.unknown_max_attempts))

  limit-le : (c : Class) → limit cfg c ≤ max cfg.max_attempts cfg.unknown_max_attempts
  limit-le retryable = omega arith
  limit-le non_retryable = omega arith
  limit-le unknown = omega arith

  will_retry-lt :
      (ctx : Context) → will_retry cfg ctx ≡ true → ctx.attempt < limit cfg (classify_error ctx)
  unfolding will_retry
  will_retry-lt ctx h = ground arith

  retried :
      (ctx : Context) (n : ℕ) (st : RetryState)
      → ctx.attempt ≡ n
      → (should_retry cfg ctx st).0 ≡ true
      → Counts n st
      → Counts (suc n) (should_retry cfg ctx st).1
  unfolding should_retry
  retried ctx n st a h (f, l, u, b) = elim (Bool-cases (is_retry_decision_failure ctx)) [
    | inr t ↦ absurd (cc (rw t at h))
    | inl t ↦
        let w : will_retry cfg ctx ≡ true = rw t at h in
        let lt = will_retry-lt ctx w in
        let le = limit-le (classify_error ctx) in
        rw (t, w) (f, omega arith, omega arith, omega arith)
  ]

  Attempting-Counts : {n : ℕ} {st : RetryState} → Attempting cfg n st → Counts n st
  Attempting-Counts first = (refl, omega arith, omega arith, omega arith)
  Attempting-Counts (again {n} {st} ctx a e h) = retried ctx n st e h (Attempting-Counts a)

  reported_of_Counts : (n : ℕ) (st : RetryState) → Counts n st → reported_attempts st ≡ n
  unfolding reported_attempts
  reported_of_Counts n st (f, l, u, b) = rw f (omega arith)

  -- A request makes at most the larger of the two configured numbers of attempts, one at least, and
  -- if the attempt under way is its last without a further decision, as after a success or when the
  -- library's retries are used up, the number of attempts made is reported.
  pub Attempting-reported :
      {n : ℕ} {st : RetryState}
      → Attempting cfg n st
      → (reported_attempts st ≡ n) × (n ≤ max 1 (max cfg.max_attempts cfg.unknown_max_attempts))
  Attempting-reported {n} {st} a = let c = Attempting-Counts a in (reported_of_Counts n st c, c.3)

  -- If the hook ends a request by its decision on the attempt under way, whether that attempt
  -- failed or not, the number of attempts made is reported.
  pub stopped-reported :
      {n : ℕ} {st : RetryState} (ctx : Context)
      → Attempting cfg n st
      → ctx.attempt ≡ n
      → (should_retry cfg ctx st).0 ≡ false
      → reported_attempts (should_retry cfg ctx st).1 ≡ n
  unfolding should_retry reported_attempts
  stopped-reported {n} {st} ctx a e h = elim (Bool-cases (is_retry_decision_failure ctx)) [
    | inr t ↦ rw t (reported_of_Counts n st (Attempting-Counts a))
    | inl t ↦ let w : will_retry cfg ctx ≡ false = rw t at h in rw (t, w) e
  ]

-- A request has ended after `n` attempts: with no further decision, as after a success or when the
-- library's retries are used up, or by a decision of the hook on the last attempt.
pub data Ended (cfg : RetryConfig) : ℕ → RetryState → Type 0 where
  undecided : {n : ℕ} {st : RetryState} → Attempting cfg n st → Ended cfg n st
  stopped :
      {n : ℕ} {st : RetryState} (ctx : Context)
      → Attempting cfg n st
      → ctx.attempt ≡ n
      → (should_retry cfg ctx st).0 ≡ false
      → Ended cfg n (should_retry cfg ctx st).1

Ended-reported :
    {cfg : RetryConfig} {n : ℕ} {st : RetryState}
    → Ended cfg n st
    → (reported_attempts st ≡ n) × (n ≤ max 1 (max cfg.max_attempts cfg.unknown_max_attempts))
Ended-reported {cfg} (undecided a) = Attempting-reported cfg a
Ended-reported {cfg} (stopped ctx a e h) =
    (stopped-reported cfg ctx a e h, (Attempting-reported cfg a).1)

-- A request that has ended, be it by a success, when the retries are used up, or early by a decision
-- of the hook, is reported with the number of attempts made, which is at most the larger of the two
-- configured numbers, or one if both are 0. If it succeeded, a line is logged exactly where there
-- were several attempts. If it threw an error, or a text that is not empty, a line is logged, and
-- the same metadata is attached to the error, if that is an object.
pub on_complete-reported :
    (cfg : RetryConfig) (n : ℕ) (st : RetryState) (e : HttpError) (status : Option ℕ)
    → Ended cfg n st
    → is_thrown (some e) ≡ true
    → ((metadata_of st).attempts ≡ n)
      × (n ≤ max 1 (max cfg.max_attempts cfg.unknown_max_attempts))
      × (on_complete (some st) none status ≡ record {
        attached = none;
        logged = if ltb 1 n then some (request_recovered (metadata_of st) status) else none;
      })
      × (on_complete (some st) (some e) status ≡ record {
        attached = attach_to e (metadata_of st);
        logged = some (request_failed (metadata_of st) (error_text e));
      })
unfolding on_complete
on_complete-reported cfg n st e status a thrown =
    let (r, b) = Ended-reported a in (r, b, rw r refl, rw thrown refl)

-- An attempt that was answered, with no error, is followed by another exactly when its status is
-- 429 or at least 500 and attempts are left.
pub should_retry-answered :
    (cfg : RetryConfig) (ctx : Context) (st : RetryState) (status : ℕ)
    → ctx.error ≡ none
    → ctx.status ≡ some status
    → (should_retry cfg ctx st).0
      ≡ ((status == 429 || leb 500 status) && ltb ctx.attempt cfg.max_attempts)
unfolding should_retry will_retry is_retry_decision_failure classify_error
should_retry-answered cfg ctx st status e s = ground arith
