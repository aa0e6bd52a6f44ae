-- ===== src/Resilience/Retry.antt =====
-- What the retry loop does.
use shared_context_engineeri.Common.{
  ℕ, zero, suc, ◌+◌, ◌≤◌, ◌<◌, ◌≡◌, refl, ap, ◌∙◌, String, Bool, true, false, List, [], ◌∷◌, ◌==◌,
  ◌&&◌, if◌then◌else◌, nat_eq, arith,
}
use mathlib.Core.Logic.{inl, inr}
use shared_context_engineeri.Resilience.{
  RetryPolicy, backoff_for_attempt, Attempted, succeeded, failed, timed_out, LastError, empty,
  error_text, timed_out_after, slept, gave_up, attempts_from, run_with_retry,
}

-- the waits after `n` attempts, of which `attempt` is the first
abbrev pub backoffs : RetryPolicy → ℕ → ℕ → List ℕ
backoffs policy attempt zero = []
backoffs policy attempt (suc n) =
    backoff_for_attempt policy (attempt + 1) ∷ backoffs policy (attempt + 1) n

module _ {S T : Type 0} (operation : S → ℕ → S × Attempted T) where
  -- the state after `n` calls, of which the first is of `attempt`
  abbrev pub state_after : ℕ → S → ℕ → S
  state_after attempt s zero = s
  state_after attempt s (suc n) = state_after (attempt + 1) (operation s attempt).0 n

  -- what the call after `n` calls gives
  abbrev pub result_after : ℕ → S → ℕ → Attempted T
  result_after attempt s zero = (operation s attempt).1
  result_after attempt s (suc n) = result_after (attempt + 1) (operation s attempt).0 n

  abbrev pub is_failure : Attempted T → Bool
  is_failure (succeeded _) = false
  is_failure (failed _) = true
  is_failure timed_out = true

  -- the first `n` calls fail
  abbrev pub all_fail : ℕ → S → ℕ → Bool
  all_fail attempt s zero = true
  all_fail attempt s (suc n) =
      is_failure (operation s attempt).1 && all_fail (attempt + 1) (operation s attempt).0 n

-- the error of a call that failed
abbrev pub error_of : {T : Type 0} → RetryPolicy → ℕ → Attempted T → LastError
error_of policy attempt (succeeded _) = empty
error_of policy attempt (failed text) = error_text text
error_of policy attempt timed_out = timed_out_after attempt policy.timeout_ms

module _ {S T : Type 0} (policy : RetryPolicy) (operation_name retry_hint : String)
    (operation : S → ℕ → S × Attempted T) where
  attempts_from-failure :
      (remaining attempt : ℕ) (s : S) (last_error : LastError)
      → is_failure operation (operation s attempt).1 ≡ true
      → attempts_from policy operation_name retry_hint operation
          (suc remaining)
          attempt
          s
          last_error
        ≡ (let e = error_of policy attempt (operation s attempt).1 in
            if attempt == policy.max_attempts
            then gave_up policy operation_name retry_hint operation (operation s attempt).0 e
            else slept (backoff_for_attempt policy (attempt + 1)) (
                attempts_from policy operation_name retry_hint operation remaining
                  (attempt + 1)
                  (operation s attempt).0
                  e))
  unfolding attempts_from
  attempts_from-failure remaining attempt s last_error fails = ground arith

  attempts_from-succeeded :
      (n remaining attempt : ℕ) (s : S) (last_error : LastError) (value : T)
      → attempt + n ≤ policy.max_attempts
      → remaining + attempt ≡ policy.max_attempts + 1
      → all_fail operation attempt s n ≡ true
      → result_after operation attempt s n ≡ succeeded value
      → attempts_from policy operation_name retry_hint operation remaining attempt s last_error
        ≡ record {
          state = state_after operation attempt s (suc n);
          sleeps = backoffs policy attempt n;
          result = inr value;
        }
  unfolding attempts_from
  attempts_from-succeeded n zero attempt s last_error value room left fails ok =
      absurd (omega arith)
  attempts_from-succeeded zero (suc remaining) attempt s last_error value room left fails ok =
      ground arith
  attempts_from-succeeded (suc n) (suc remaining) attempt s last_error value room left fails ok =
      ground (
        arith,
        attempts_from-failure remaining attempt s last_error,
        attempts_from-succeeded n remaining (attempt + 1) (operation s attempt).0
            (error_of policy attempt (operation s attempt).1) value,
      )

  attempts_from-exhausted :
      (n attempt : ℕ) (s : S) (last_error : LastError)
      → attempt + n ≡ policy.max_attempts
      → all_fail operation attempt s (suc n) ≡ true
      → attempts_from policy operation_name retry_hint operation (suc n) attempt s last_error
        ≡ record {
          state = state_after operation attempt s (suc n);
          sleeps = backoffs policy attempt n;
          result = inl (record {
            operation_name = operation_name;
            policy = policy;
            last_error = error_of policy policy.max_attempts (result_after operation attempt s n);
            retry_hint = retry_hint;
          });
        }
  attempts_from-exhausted zero attempt s last_error last fails =
      ground (arith, attempts_from-failure 0 attempt s last_error)
  attempts_from-exhausted (suc n) attempt s last_error last fails = ground (
    arith,
    attempts_from-failure (suc n) attempt s last_error,
    attempts_from-exhausted n (attempt + 1) (operation s attempt).0
        (error_of policy attempt (operation s attempt).1),
  )

  -- If the first `n` calls fail and the next one, within the attempts of the policy, gives a value,
  -- the loop returns it after exactly `n + 1` calls, with one backoff between any two of them.
  pub run_with_retry-succeeded :
      (n : ℕ) (s : S) (value : T)
      → n < policy.max_attempts
      → all_fail operation 1 s n ≡ true
      → result_after operation 1 s n ≡ succeeded value
      → run_with_retry policy operation_name retry_hint operation s ≡ record {
        state = state_after operation 1 s (suc n);
        sleeps = backoffs policy 1 n;
        result = inr value;
      }
  unfolding run_with_retry
  run_with_retry-succeeded n s value room fails ok =
      attempts_from-succeeded n policy.max_attempts 1 s empty value (omega arith) refl fails ok

  -- If every one of the policy's attempts fails, the loop makes exactly as many calls, with a
  -- backoff between any two of them but none after the last, and returns the error of the last.
  pub run_with_retry-exhausted :
      (n : ℕ) (s : S)
      → policy.max_attempts ≡ suc n
      → all_fail operation 1 s (suc n) ≡ true
      → run_with_retry policy operation_name retry_hint operation s ≡ record {
        state = state_after operation 1 s (suc n);
        sleeps = backoffs policy 1 n;
        result = inl (record {
          operation_name = operation_name;
          policy = policy;
          last_error = error_of policy policy.max_attempts (result_after operation 1 s n);
          retry_hint = retry_hint;
        });
      }
  unfolding run_with_retry
  run_with_retry-exhausted n s count fails =
      ap (λ k. attempts_from policy operation_name retry_hint operation k 1 s empty) count
      ∙ attempts_from-exhausted n 1 s empty (omega arith) fails
