-- ===== src/MutationTrace/Maintenance/Plan.antt =====
-- cli/src/services/mutation_trace/runtime/maintenance_state.rs: the advice that is planned, and what a
-- pass of the reconciliation records.
use mathlib.Core.Bool.{Bool, true, false, ◌&&◌}
use Prim.Native.String as Text
use shared_context_engineeri.Common.{
  ℕ, zero, suc, ◌+◌, String, Option, none, some, ◌!=◌, if◌then◌else◌,
}
use shared_context_engineeri.MutationTrace.Maintenance.{
  MaintenanceState, MaintenanceState-discrete, maintenance_state_eq, default, StateRead, absent,
  unusable, valid, StoredReport, completed, failed, u32_max, at_most, usable, is_none, evaluate,
  max_failure_message_chars,
}

unfoldable pub normalize : MaintenanceState → ℕ → MaintenanceState
unfolding usable
normalize state now = record state {
  anchor = usable state.anchor now;
  last_success = usable state.last_success now;
  last_attempt = usable state.last_attempt now;
  last_advised = usable state.last_advised now;
}

pub data AdvisoryDecision : Type 0 where
  anchored no_action advised : AdvisoryDecision

abbrev pub has_no_reference : MaintenanceState → Bool
has_no_reference state = is_none state.anchor && is_none state.last_success

abbrev pub anchor_if_missing : MaintenanceState → ℕ → MaintenanceState
anchor_if_missing next now =
    if has_no_reference next then record next { anchor = some now } else next

-- the decision, and the state that it leads to
abbrev pub decide_on : Bool → MaintenanceState → ℕ → AdvisoryDecision × MaintenanceState
decide_on true next now = (advised, anchor_if_missing (record next { last_advised = some now }) now)
decide_on false next now =
    if has_no_reference next
    then (anchored, record next { anchor = some now })
    else (no_action, next)

unfoldable pub decide : MaintenanceState → ℕ → AdvisoryDecision × MaintenanceState
unfolding evaluate normalize
decide state now = decide_on (evaluate state now).advise (normalize state now) now

abbrev pub changed_from : MaintenanceState → MaintenanceState → Option MaintenanceState
changed_from state next = if next != state then some next else none

unfoldable pub plan_advisory : StateRead → ℕ → AdvisoryDecision × Option MaintenanceState
unfolding decide MaintenanceState-discrete
plan_advisory absent now = (anchored, some (record default { anchor = some now }))
plan_advisory unusable now = (anchored, some (record default { anchor = some now }))
plan_advisory (valid state) now =
    let (decision, next) = decide state now in (decision, changed_from state next)

unfoldable pub record_success : MaintenanceState → ℕ → StoredReport → MaintenanceState
unfolding normalize
record_success state now report = record (normalize state now) {
  last_attempt = some now;
  last_success = some now;
  last_attempt_outcome = some completed;
  last_report = some report;
  consecutive_failures = 0;
  last_failure = none;
}

-- `chars().take(n).collect()`
unfoldable pub take_chars : ℕ → String → String
take_chars zero s = ""
take_chars (suc n) Text.[] = ""
take_chars (suc n) (Text.◌∷◌ c s) = Text.◌∷◌ c (take_chars n s)

unfoldable pub record_failure : MaintenanceState → ℕ → String → String → MaintenanceState
unfolding normalize take_chars
record_failure state now kind message = record (normalize state now) {
  last_attempt = some now;
  last_attempt_outcome = some failed;
  consecutive_failures = at_most (state.consecutive_failures + 1) u32_max;
  last_failure =
      some (record { kind = kind; message = take_chars max_failure_message_chars message });
}
