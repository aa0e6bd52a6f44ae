-- ===== src/CodexScope/Lifecycle/WellFormed.antt =====
-- The state file stays well-formed.
pub mod Kept
use native.Mathlib.Decide.{ℕ_discrete}
use shared_context_engineeri.Common.{
  ℕ, ◌+◌, ◌≤◌, ◌<◌, ◌≡◌, refl, String, Bool, true, false, not, Option, none, some, List, [], ◌∷◌,
  ◌++◌, map, filter, All, length, ◌==◌, ◌!=◌, ◌&&◌, ◌||◌, if◌then◌else◌, contains, Eq, string_eq,
  nat_eq, String-discrete, Option-cases, Bool-cases, inl, inr, arith,
}
use shared_context_engineeri.Common.Distinct.{is_distinct, contains-append, distinct-snoc}
use shared_context_engineeri.Common.Result.{Result, ok, err}
use shared_context_engineeri.CodexScope.{
  AttemptKey, OptionString-discrete, option_string_eq, CodexHookEvent,
}
use shared_context_engineeri.CodexScope.State.{
  RecoveryState, clear, pending, flushing, AttemptPhase, pending_start, active, attempt_phase_eq,
  AdapterAttempt, matches_key, in_builtin_lane, AdapterState, AllocatedAttempt, find, any,
  new_attempt, admit_clear, admit_tracked_attempt, activate, mark_active, remove_attempt,
  normalize_recovery, arm_recovery, complete_recovery_flush, relinquish_recovery_flush,
}
use shared_context_engineeri.CodexScope.World.{World}
use shared_context_engineeri.CodexScope.Lifecycle.{BashPolicy, run}
use shared_context_engineeri.CodexScope.Lifecycle.Rules.{
  Condition, Calls, TransactionPost, ResultPost,
}
use shared_context_engineeri.CodexScope.Lifecycle.Handlers.{Decided, Upkeep}
use shared_context_engineeri.CodexScope.Lifecycle.Events.{run-Kept}

-- the session and the turn of an attempt
pub record Lane : Type 0 where
  pub session_id : String
  pub turn_id : String

unfoldable pub Lane-discrete : Discrete Lane
Lane-discrete = hlevel String-discrete

instance abbrev pub lane_eq : Eq Lane
lane_eq = record { dec = Lane-discrete }

abbrev pub lane_of : AdapterAttempt → Lane
lane_of a = record { session_id = a.session_id; turn_id = a.turn_id }

unfoldable pub AttemptKey-discrete : Discrete AttemptKey
AttemptKey-discrete = hlevel String-discrete

instance abbrev pub attempt_key_eq : Eq AttemptKey
attempt_key_eq = record { dec = AttemptKey-discrete }

abbrev pub key_of : AdapterAttempt → AttemptKey
key_of a = record { session_id = a.session_id; agent_id = a.agent_id; tool_use_id = a.tool_use_id }

abbrev pub count_pending : List AdapterAttempt → ℕ
count_pending [] = 0
count_pending (a ∷ attempts) =
    if a.phase == pending_start then 1 + count_pending attempts else count_pending attempts

abbrev pub generation_of : RecoveryState → ℕ
generation_of clear = 0
generation_of (pending generation) = generation
generation_of (flushing generation) = generation

-- No two attempts have the same key or the same lane, at most one is not yet started, and the
-- numbers that are given next are new.
pub record IsWellFormed (s : AdapterState) : Type 0 where
  pub keys : is_distinct (map key_of s.attempts) ≡ true
  pub lanes : is_distinct (map lane_of s.attempts) ≡ true
  pub one_pending : count_pending s.attempts ≤ 1
  pub numbered : All (λ a. a.attempt_seq < s.next_attempt_seq) s.attempts
  pub generation : generation_of s.recovery < s.next_recovery_generation

module _ {A : Type 0} ⦃e : Eq A⦄ (f : AdapterAttempt → A) where
  contains-filter :
      (x : A) (p : AdapterAttempt → Bool) (attempts : List AdapterAttempt)
      → contains x (map f attempts) ≡ false
      → contains x (map f (filter p attempts)) ≡ false
  unfolding contains filter
  contains-filter x p [] h = refl
  contains-filter x p (a ∷ attempts) h = ground (arith, contains-filter x p attempts, h)

  pub distinct-filter :
      (p : AdapterAttempt → Bool) (attempts : List AdapterAttempt)
      → is_distinct (map f attempts) ≡ true
      → is_distinct (map f (filter p attempts)) ≡ true
  unfolding filter
  distinct-filter p [] h = refl
  distinct-filter p (a ∷ attempts) h =
      ground (arith, distinct-filter p attempts, contains-filter (f a) p attempts, h)

pub count_pending-filter :
    (p : AdapterAttempt → Bool) (attempts : List AdapterAttempt)
    → count_pending (filter p attempts) ≤ count_pending attempts
unfolding filter
count_pending-filter p [] = omega arith
count_pending-filter p (a ∷ attempts) = ground (arith, count_pending-filter p attempts)

pub numbered-filter :
    (n : ℕ) (p : AdapterAttempt → Bool) (attempts : List AdapterAttempt)
    → All (λ a. a.attempt_seq < n) attempts
    → All (λ a. a.attempt_seq < n) (filter p attempts)
unfolding filter
numbered-filter n p [] h = tt
numbered-filter n p (a ∷ attempts) h = ground (arith, numbered-filter n p attempts h.1, h.0)

pub key_of-activate :
    (id : String) (attempts : List AdapterAttempt)
    → map key_of (activate id attempts) ≡ map key_of attempts
unfolding activate
key_of-activate id [] = refl
key_of-activate id (a ∷ attempts) = ground (arith, key_of-activate id attempts)

pub lane_of-activate :
    (id : String) (attempts : List AdapterAttempt)
    → map lane_of (activate id attempts) ≡ map lane_of attempts
unfolding activate
lane_of-activate id [] = refl
lane_of-activate id (a ∷ attempts) = ground (arith, lane_of-activate id attempts)

pub count_pending-activate :
    (id : String) (attempts : List AdapterAttempt)
    → count_pending (activate id attempts) ≤ count_pending attempts
unfolding activate
count_pending-activate id [] = omega arith
count_pending-activate id (a ∷ attempts) = ground (arith, count_pending-activate id attempts)

pub numbered-activate :
    (n : ℕ) (id : String) (attempts : List AdapterAttempt)
    → All (λ a. a.attempt_seq < n) attempts
    → All (λ a. a.attempt_seq < n) (activate id attempts)
unfolding activate
numbered-activate n id [] h = tt
numbered-activate n id (a ∷ attempts) h =
    ground (arith, numbered-activate n id attempts h.1, h.0, h.1)

pub no_key :
    (key : AttemptKey) (attempts : List AdapterAttempt)
    → find (matches_key key) attempts ≡ none
    → contains key (map key_of attempts) ≡ false
unfolding find contains
no_key key [] h = refl
no_key key (a ∷ attempts) h = ground (arith, no_key key attempts, h)

pub no_lane :
    (key : AttemptKey) (turn_id : String) (attempts : List AdapterAttempt)
    → find (matches_key key) attempts ≡ none
    → any (λ a. in_builtin_lane key.session_id turn_id a && not (matches_key key a)) attempts
      ≡ false
    → contains (record { session_id = key.session_id; turn_id = turn_id }) (map lane_of attempts)
      ≡ false
unfolding find any contains
no_lane key turn_id [] h k = refl
no_lane key turn_id (a ∷ attempts) h k = ground (arith, no_lane key turn_id attempts, h, k)

pub no_pending :
    (attempts : List AdapterAttempt)
    → any (λ a. a.phase == pending_start) attempts ≡ false
    → count_pending attempts ≡ 0
unfolding any
no_pending [] h = refl
no_pending (a ∷ attempts) h = ground (arith, no_pending attempts, h)

pub count_pending-snoc :
    (attempts : List AdapterAttempt) (a : AdapterAttempt)
    → count_pending (attempts ++ a ∷ []) ≤ count_pending attempts + 1
count_pending-snoc [] a = ground arith
count_pending-snoc (b ∷ attempts) a = ground (arith, count_pending-snoc attempts a)

pub numbered-snoc :
    (n : ℕ) (attempts : List AdapterAttempt) (a : AdapterAttempt)
    → All (λ b. b.attempt_seq < n) attempts
    → a.attempt_seq ≡ n
    → All (λ b. b.attempt_seq < n + 1) (attempts ++ a ∷ [])
numbered-snoc n [] a h e = ground (arith, e)
numbered-snoc n (b ∷ attempts) a h e = ground (arith, numbered-snoc n attempts a h.1 e, h.0)
