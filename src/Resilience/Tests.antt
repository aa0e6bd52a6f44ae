-- ===== src/Resilience/Tests.antt =====
-- An operation that fails twice before it succeeds, under two policies.
use shared_context_engineeri.Common.{
  ◌≤◌, ℕ, ◌+◌, ◌≡◌, refl, String, [], ◌∷◌, ◌==◌, nat_eq, if◌then◌else◌, arith,
}
use native.Mathlib.Decide.{ℕ_discrete}
use mathlib.Core.Logic.{inr}
use shared_context_engineeri.Resilience.{
  RetryPolicy, new, one_shifted, backoff_for_attempt, Attempted, succeeded, failed, timed_out,
  attempts_from, run_with_retry,
}
use shared_context_engineeri.Resilience.Backoff.{backoff_for_attempt-bounds}
use shared_context_engineeri.Resilience.Retry.{run_with_retry-succeeded}

machinery : Unit {0}
unfolding new one_shifted backoff_for_attempt attempts_from run_with_retry ℕ_discrete
machinery = tt

abbrev policy : ℕ → RetryPolicy
policy attempts = record {
  max_attempts = attempts;
  timeout_ms = 50;
  initial_backoff_ms = 10;
  max_backoff_ms = 15;
}

-- The state counts the calls.
abbrev third_time : ℕ → ℕ → ℕ × Attempted String
third_time calls attempt = (
  calls + 1,
  if attempt == 1 then failed "busy" else if attempt == 2 then timed_out else succeeded "done",
)

three_attempts :
    run_with_retry (policy 3) "open" "retry" third_time 0
    ≡ record { state = 3; sleeps = 10 ∷ 15 ∷ []; result = inr "done" }
unfolding machinery
three_attempts = refl

backoff_for_attempt-bounds_example :
    (backoff_for_attempt (policy 3) 1 ≡ 0)
    × (10 ≤ backoff_for_attempt (policy 3) 2)
    × (backoff_for_attempt (policy 3) 2 ≤ backoff_for_attempt (policy 3) 3)
    × (backoff_for_attempt (policy 3) 3 ≤ 15)
unfolding machinery
backoff_for_attempt-bounds_example =
    backoff_for_attempt-bounds 3 50 10 15 (policy 3) 2 3 (omega arith) refl (omega arith)
      (omega arith)

run_with_retry-succeeded_example :
    run_with_retry (policy 3) "open" "retry" third_time 0
    ≡ record { state = 3; sleeps = 10 ∷ 15 ∷ []; result = inr "done" }
unfolding machinery
run_with_retry-succeeded_example =
    run_with_retry-succeeded (policy 3) "open" "retry" third_time 2 0 "done" (omega arith) refl refl
