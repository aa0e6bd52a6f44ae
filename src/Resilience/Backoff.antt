-- ===== src/Resilience/Backoff.antt =====
-- The policy and its backoff.
use shared_context_engineeri.Common.{ℕ, zero, suc, ◌-◌, ◌*◌, ◌≤◌, ◌≡◌, nat_eq, arith}
use native.Mathlib.Nat.{mul-le-mul_left}
use mathlib.Core.Logic.{inr}
use shared_context_engineeri.Resilience.{
  RetryPolicy, new, u64_max, min_of, one_shifted, backoff_for_attempt,
}

one_shifted-positive : (n : ℕ) → 1 ≤ one_shifted n
unfolding one_shifted
one_shifted-positive zero = omega arith
one_shifted-positive (suc n) = omega (arith, one_shifted-positive n)

one_shifted_mono : (m n : ℕ) → m ≤ n → one_shifted m ≤ one_shifted n
unfolding one_shifted
one_shifted_mono zero n h = one_shifted-positive n
one_shifted_mono (suc m) zero h = absurd (omega arith)
one_shifted_mono (suc m) (suc n) h = omega (arith, one_shifted_mono m n (omega arith))

le_scaled : (a m : ℕ) → 1 ≤ m → a ≤ a * m
le_scaled a m h = omega (arith, mul-le-mul_left {m = 1} {n = m} a h)

-- A policy that `new` accepts waits at least the initial and at most the largest backoff before
-- each attempt but the first, before which it does not wait, and never less before a later attempt.
pub backoff_for_attempt-bounds :
    (a t i m : ℕ) (policy : RetryPolicy) (attempt later : ℕ)
    → i ≤ u64_max
    → new a t i m ≡ inr policy
    → 2 ≤ attempt
    → attempt ≤ later
    → (backoff_for_attempt policy 1 ≡ 0)
      × (i ≤ backoff_for_attempt policy attempt)
      × (backoff_for_attempt policy attempt ≤ backoff_for_attempt policy later)
      × (backoff_for_attempt policy later ≤ m)
unfolding new backoff_for_attempt
backoff_for_attempt-bounds a t i m policy attempt later h e k l =
    let early = one_shifted (min_of (attempt - 2) 20) in
    let late = one_shifted (min_of (later - 2) 20) in
    ground (
      arith,
      le_scaled i early (one_shifted-positive (min_of (attempt - 2) 20)),
      mul-le-mul_left {m = early} {n = late} i
          (one_shifted_mono (min_of (attempt - 2) 20) (min_of (later - 2) 20) (ground arith)),
    )
