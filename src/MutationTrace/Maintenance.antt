-- ===== src/MutationTrace/Maintenance.antt =====
-- cli/src/services/mutation_trace/runtime/maintenance_state.rs: the record of when the pins of a
-- worktree were last reconciled, and when to advise it again. A timestamp, an i64, is kept as the
-- number that is 2^63 more, so that it is below 2^64 and keeps its order; an age, which is never
-- negative, is kept as it is.
pub mod Plan
pub mod Advice
pub mod Planned
pub mod Settled
pub mod Files
pub mod Documented
pub mod Atomic
pub mod Sample
pub mod Tests
use mathlib.Core.Bool.{Bool-discrete}
use mathlib.Core.Option
use native.Mathlib.Decide.{ℕ_discrete}
use Prim.Native.String as Text
use shared_context_engineeri.Common.{
  ℕ, zero, suc, ◌+◌, ◌-◌, String, Bool, true, false, not, ◌&&◌, ◌||◌, Option, none, some, leb, ltb,
  ◌==◌, ◌!=◌, if◌then◌else◌, is_some_and, is_none_or, Eq, nat_eq, String-discrete,
}

abbrev pub reconciliation_advisory_after_ms : ℕ
reconciliation_advisory_after_ms = 86400000

abbrev pub future_skew_tolerance_ms : ℕ
future_skew_tolerance_ms = 300000

abbrev pub max_failure_message_chars : ℕ
max_failure_message_chars = 256

abbrev pub maintenance_state_version : ℕ
maintenance_state_version = 1

-- `i64::MAX` as a timestamp, and as an age
abbrev pub max_timestamp : ℕ
max_timestamp = 18446744073709551615

abbrev pub max_age : ℕ
max_age = 9223372036854775807

abbrev pub u32_max : ℕ
u32_max = 4294967295

abbrev pub at_most : ℕ → ℕ → ℕ
at_most n bound = if leb n bound then n else bound

pub data AttemptOutcome : Type 0 where
  completed failed : AttemptOutcome

pub record StoredReport : Type 0 where
  pub retained : ℕ
  pub deleted : ℕ
  pub local_required : ℕ

pub record StoredFailure : Type 0 where
  pub kind : String
  pub message : String

pub record MaintenanceState : Type 0 where
  pub version : ℕ
  pub anchor : Option ℕ
  pub last_success : Option ℕ
  pub last_attempt : Option ℕ
  pub last_advised : Option ℕ
  pub last_attempt_outcome : Option AttemptOutcome
  pub last_report : Option StoredReport
  pub consecutive_failures : ℕ
  pub last_failure : Option StoredFailure

-- `derive(Eq)`
unfoldable pub AttemptOutcome-discrete : Discrete AttemptOutcome
AttemptOutcome-discrete = hlevel

instance abbrev pub attempt_outcome_eq : Eq AttemptOutcome
attempt_outcome_eq = record { dec = AttemptOutcome-discrete }

unfoldable pub StoredReport-discrete : Discrete StoredReport
StoredReport-discrete = hlevel ℕ_discrete

unfoldable pub StoredFailure-discrete : Discrete StoredFailure
StoredFailure-discrete = hlevel String-discrete

unfoldable pub MaintenanceState-discrete : Discrete MaintenanceState
MaintenanceState-discrete =
    hlevel (ℕ_discrete, AttemptOutcome-discrete, StoredReport-discrete, StoredFailure-discrete)

instance abbrev pub maintenance_state_eq : Eq MaintenanceState
maintenance_state_eq = record { dec = MaintenanceState-discrete }

-- `MaintenanceState::default`
abbrev pub default : MaintenanceState
default = record {
  version = maintenance_state_version;
  anchor = none;
  last_success = none;
  last_attempt = none;
  last_advised = none;
  last_attempt_outcome = none;
  last_report = none;
  consecutive_failures = 0;
  last_failure = none;
}

pub data StateRead : Type 0 where
  absent unusable : StateRead
  valid : MaintenanceState → StateRead

abbrev pub into_state : StateRead → MaintenanceState
into_state (valid state) = state
into_state absent = default
into_state unusable = default

pub record Evaluation : Type 0 where
  pub recommended : Bool
  pub advise : Bool
  pub invalid_timestamps : Bool
  pub reference_age_ms : Option ℕ

abbrev pub is_valid_timestamp : ℕ → ℕ → Bool
is_valid_timestamp timestamp now =
    leb timestamp (at_most (now + future_skew_tolerance_ms) max_timestamp)

abbrev pub age_ms : ℕ → ℕ → ℕ
age_ms timestamp now = at_most (now - timestamp) max_age

-- `Option::filter`
abbrev pub filter : {A : Type 0} → (A → Bool) → Option A → Option A
filter p none = none
filter p (some a) = if p a then some a else none

-- `Option::or_else`
abbrev pub or_else : {A : Type 0} → Option A → Option A → Option A
or_else none other = other
or_else (some a) _ = some a

abbrev pub is_some : {A : Type 0} → Option A → Bool
is_some none = false
is_some (some _) = true

abbrev pub is_none : {A : Type 0} → Option A → Bool
is_none option = not (is_some option)

unfoldable pub usable : Option ℕ → ℕ → Option ℕ
usable timestamp now = filter (λ value. is_valid_timestamp value now) timestamp

abbrev pub failed_before : Option AttemptOutcome → Bool
failed_before none = false
failed_before (some completed) = false
failed_before (some failed) = true

unfoldable pub failure_outstanding : MaintenanceState → Bool
failure_outstanding state =
    failed_before state.last_attempt_outcome || ltb 0 state.consecutive_failures

-- `due` in `evaluate`
unfoldable pub due : MaintenanceState → ℕ → Bool
unfolding usable
due state now =
    let reference = or_else (usable state.last_success now) (usable state.anchor now) in
    let reference_lost =
      is_none reference && (is_some state.last_success || is_some state.anchor) in
    reference_lost
    || is_some_and (λ timestamp. leb reconciliation_advisory_after_ms (age_ms timestamp now))
        reference

-- `advised` in `evaluate`
unfoldable pub advised_lately : MaintenanceState → ℕ → Option ℕ
unfolding usable
advised_lately state now =
    filter (λ timestamp. ltb (age_ms timestamp now) reconciliation_advisory_after_ms)
      (usable state.last_advised now)

-- `failure_reminded` in `evaluate`
unfoldable pub failure_reminded : MaintenanceState → ℕ → Bool
unfolding usable advised_lately
failure_reminded state now =
    is_some_and
      (λ advised_at. is_none_or (λ attempt. leb attempt advised_at) (usable state.last_attempt now))
      (advised_lately state now)

-- `invalid_timestamps` in `evaluate`
unfoldable pub invalid_timestamps : MaintenanceState → ℕ → Bool
invalid_timestamps state now =
    let is_invalid = is_some_and λ timestamp. not (is_valid_timestamp timestamp now) in
    is_invalid state.anchor
    || is_invalid state.last_success
    || is_invalid state.last_attempt
    || is_invalid state.last_advised

unfoldable pub evaluate : MaintenanceState → ℕ → Evaluation
unfolding usable due advised_lately failure_outstanding failure_reminded invalid_timestamps
evaluate state now = record {
  recommended = due state now || failure_outstanding state || invalid_timestamps state now;
  advise =
      (due state now && is_none (advised_lately state now))
      || (failure_outstanding state && not (failure_reminded state now));
  invalid_timestamps = invalid_timestamps state now;
  reference_age_ms =
      Option.map (λ timestamp. age_ms timestamp now)
        (or_else (usable state.last_success now) (usable state.anchor now));
}

-- what `sce doctor` shows
pub record Recommendation : Type 0 where
  pub recommended : Bool
  pub invalid_timestamps : Bool
  pub last_success_age_ms : Option ℕ
  pub last_attempt_age_ms : Option ℕ
  pub last_advised_age_ms : Option ℕ
  pub last_attempt_outcome : Option AttemptOutcome
  pub consecutive_failures : ℕ

unfoldable pub evaluate_recommendation : MaintenanceState → ℕ → Recommendation
unfolding usable evaluate
evaluate_recommendation state now =
    let age_of =
      λ (timestamp : Option ℕ). Option.map (λ value. age_ms value now) (usable timestamp now) in
    record {
      recommended = (evaluate state now).recommended;
      invalid_timestamps = (evaluate state now).invalid_timestamps;
      last_success_age_ms = age_of state.last_success;
      last_attempt_age_ms = age_of state.last_attempt;
      last_advised_age_ms = age_of state.last_advised;
      last_attempt_outcome = state.last_attempt_outcome;
      consecutive_failures = state.consecutive_failures;
    }
