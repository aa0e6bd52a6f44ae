-- ===== src/Resilience.antt =====
-- cli/src/services/resilience.rs: the retry policy and the retry loop. The operation is a parameter
-- that passes a state on; what `tokio::time::timeout` makes of a call is one of three results. The
-- sleeps are listed in the result, in milliseconds, and the warnings of the log are left out.
pub mod Backoff
pub mod Retry
pub mod Tests
use shared_context_engineeri.Common.{
  ℕ, zero, suc, ◌+◌, ◌-◌, ◌*◌, String, Bool, true, false, Option, none, some, List, [], ◌∷◌, ltb,
  leb, ◌==◌, if◌then◌else◌, nat_eq,
}
use mathlib.Core.Logic.{inl, inr, ◌⊎◌}

pub data RetryPolicyError : Type 0 where
  zero_max_attempts zero_timeout max_backoff_below_initial : RetryPolicyError

pub record RetryPolicy : Type 0 where
  pub max_attempts : ℕ  -- u32
  pub timeout_ms : ℕ  -- u64
  pub initial_backoff_ms : ℕ  -- u64
  pub max_backoff_ms : ℕ  -- u64

-- `RetryPolicy::new`: `inl` is an error
unfoldable pub new : ℕ → ℕ → ℕ → ℕ → RetryPolicyError ⊎ RetryPolicy
new max_attempts timeout_ms initial_backoff_ms max_backoff_ms =
    if max_attempts == 0
    then inl zero_max_attempts
    else if timeout_ms == 0
    then inl zero_timeout
    else if ltb max_backoff_ms initial_backoff_ms
    then inl max_backoff_below_initial
    else inr (record {
      max_attempts = max_attempts;
      timeout_ms = timeout_ms;
      initial_backoff_ms = initial_backoff_ms;
      max_backoff_ms = max_backoff_ms;
    })

abbrev pub u64_max : ℕ
u64_max = 18446744073709551615

-- `u64::min` and `u32::min`
abbrev pub min_of : ℕ → ℕ → ℕ
min_of a b = if leb a b then a else b

-- `1_u64 << n`, for an `n` below 64
unfoldable pub one_shifted : ℕ → ℕ
one_shifted zero = 1
one_shifted (suc n) = one_shifted n + one_shifted n

abbrev pub saturating_mul : ℕ → ℕ → ℕ
saturating_mul a b = min_of (a * b) u64_max

unfoldable pub backoff_for_attempt : RetryPolicy → ℕ → ℕ
unfolding one_shifted
backoff_for_attempt policy attempt =
    if leb attempt 1
    then 0
    else (let exponent = min_of (attempt - 2) 20 in
        let multiplier = one_shifted exponent in
        min_of (saturating_mul policy.initial_backoff_ms multiplier) policy.max_backoff_ms)

-- a call of the operation, under the timeout
pub data Attempted (T : Type 0) : Type 0 where
  succeeded : T → Attempted T
  failed : String → Attempted T
  timed_out : Attempted T

-- `last_error`, before it is formatted
pub data LastError : Type 0 where
  empty : LastError
  error_text : String → LastError
  timed_out_after : ℕ → ℕ → LastError

-- the error that is returned, before it is formatted
pub record RetryError : Type 0 where
  pub operation_name : String
  pub policy : RetryPolicy
  pub last_error : LastError
  pub retry_hint : String

-- the state of the operation, the sleeps, and the result
pub record Retried (S T : Type 0) : Type 0 where
  pub state : S
  pub sleeps : List ℕ
  pub result : RetryError ⊎ T

module _ {S T : Type 0} where
  abbrev pub slept : ℕ → Retried S T → Retried S T
  slept ms r = record r { sleeps = ms ∷ r.sleeps }

module _ {S T : Type 0} (policy : RetryPolicy) (operation_name retry_hint : String)
    (operation : S → ℕ → S × Attempted T) where
  abbrev pub gave_up : S → LastError → Retried S T
  gave_up s last_error = record {
    state = s;
    sleeps = [];
    result = inl (record {
      operation_name = operation_name;
      policy = policy;
      last_error = last_error;
      retry_hint = retry_hint;
    });
  }

  -- The `for` loop: `remaining` attempts are left, of which `attempt` is the first.
  unfoldable pub attempts_from : ℕ → ℕ → S → LastError → Retried S T
  attempts_from zero attempt s last_error = gave_up s last_error
  attempts_from (suc remaining) attempt s last_error =
      let called = operation s attempt in
      let later : LastError → Retried S T = λ e. attempts_from remaining (attempt + 1) called.0 e in
      elim called.1 [
        | succeeded value ↦ record { state = called.0; sleeps = []; result = inr value }
        | failed text ↦
            if attempt == policy.max_attempts
            then gave_up called.0 (error_text text)
            else slept (backoff_for_attempt policy (attempt + 1)) (later (error_text text))
        | timed_out ↦
            if attempt == policy.max_attempts
            then gave_up called.0 (timed_out_after attempt policy.timeout_ms)
            else slept (backoff_for_attempt policy (attempt + 1))
                (later (timed_out_after attempt policy.timeout_ms))
      ]

  unfoldable pub run_with_retry : S → Retried S T
  unfolding attempts_from
  run_with_retry s = attempts_from policy.max_attempts 1 s empty
