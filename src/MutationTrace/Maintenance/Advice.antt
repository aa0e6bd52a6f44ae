-- ===== src/MutationTrace/Maintenance/Advice.antt =====
-- When a recorded pass is due again, and when a failed one is advised.
use shared_context_engineeri.Common.{
  ℕ, ◌+◌, ◌≤◌, ◌≡◌, refl, Bool, true, false, Option, none, some, leb, String, inl, inr,
  Option-cases, arith, is_some_and, not, is_none_or, ltb,
}
use shared_context_engineeri.MutationTrace.Maintenance.{
  valid, MaintenanceState, StoredReport, max_timestamp, is_valid_timestamp, usable, due,
  advised_lately, failure_outstanding, failure_reminded, invalid_timestamps, evaluate,
}
use shared_context_engineeri.MutationTrace.Maintenance.Plan.{
  plan_advisory, decide, advised, normalize, record_success, record_failure,
}

-- a timestamp that is usable at a time is usable later
pub usable-later :
    (timestamp : Option ℕ) (now later : ℕ)
    → now ≤ later
    → usable (usable timestamp now) later ≡ usable timestamp now
unfolding usable
usable-later none now later h = refl
usable-later (some value) now later h = ground arith

pub usable-now :
    (now later : ℕ) → now ≤ later → later ≤ max_timestamp → usable (some now) later ≡ some now
unfolding usable
usable-now now later h bound = ground arith

usable-is_valid :
    (timestamp : Option ℕ) (now later : ℕ)
    → now ≤ later
    → is_some_and (λ value. not (is_valid_timestamp value later)) (usable timestamp now) ≡ false
unfolding usable
usable-is_valid none now later h = refl
usable-is_valid (some value) now later h = ground arith

now-is_valid :
    (now later : ℕ) → now ≤ later → later ≤ max_timestamp → is_valid_timestamp now later ≡ true
now-is_valid now later h bound = ground arith

due-referenced :
    (state : MaintenanceState) (now later : ℕ)
    → state.last_success ≡ some now
    → now ≤ later
    → later ≤ max_timestamp
    → due state later ≡ leb (now + 86400000) later
unfolding due usable
due-referenced state now later e h bound = ground (arith, e)

record_success-invalid :
    (state : MaintenanceState) (report : StoredReport) (now later : ℕ)
    → now ≤ later
    → later ≤ max_timestamp
    → invalid_timestamps (record_success state now report) later ≡ false
unfolding record_success normalize invalid_timestamps
record_success-invalid state report now later h bound = simp (
  usable-is_valid state.anchor now later h,
  usable-is_valid state.last_advised now later h,
  now-is_valid now later h bound,
)

-- After a pass that succeeded, reconciliation is recommended exactly from 24 hours after it on.
pub record_success-advice :
    (state : MaintenanceState) (report : StoredReport) (now later : ℕ)
    → now ≤ later
    → later ≤ max_timestamp
    → (evaluate (record_success state now report) later).recommended ≡ leb (now + 86400000) later
unfolding evaluate record_success failure_outstanding
record_success-advice state report now later h bound = ground (
  arith,
  due-referenced (record_success state now report) now later refl h bound,
  record_success-invalid state report now later h bound,
)

record_failure-outstanding :
    (state : MaintenanceState) (now : ℕ) (kind message : String)
    → failure_outstanding (record_failure state now kind message) ≡ true
unfolding failure_outstanding record_failure
record_failure-outstanding state now kind message = refl

-- the last advice, if there is one, is before `now`
abbrev pub advised_before : ℕ → MaintenanceState → Bool
advised_before now state = is_none_or (λ advice. ltb advice now) state.last_advised

record_failure-not_reminded :
    (state : MaintenanceState) (now later : ℕ) (kind message : String)
    → advised_before now state ≡ true
    → now ≤ later
    → later ≤ max_timestamp
    → failure_reminded (record_failure state now kind message) later ≡ false
unfolding failure_reminded advised_lately record_failure normalize usable
record_failure-not_reminded state now later kind message a h bound =
    elim (Option-cases state.last_advised) [
      | inl n ↦ ground (arith, n)
      | inr (t, s) ↦ ground (arith, s)
    ]

-- A failed pass is advised at whatever time the advice is planned next, if the last advice, if there
-- is one, was before the failure.
pub record_failure-advised :
    (state : MaintenanceState) (now later : ℕ) (kind message : String)
    → advised_before now state ≡ true
    → now ≤ later
    → later ≤ max_timestamp
    → (plan_advisory (valid (record_failure state now kind message)) later).0 ≡ advised
unfolding plan_advisory decide evaluate
record_failure-advised state now later kind message a h bound = ground (
  arith,
  record_failure-outstanding state now kind message,
  record_failure-not_reminded state now later kind message a h bound,
)
