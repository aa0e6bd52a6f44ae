-- ===== src/MutationTrace/Maintenance/Planned.antt =====
-- The state that an advice leaves is planned: its timestamps are usable, and it has a reference.
use shared_context_engineeri.Common.{
  ℕ, ◌≤◌, ◌≡◌, refl, sym, ap, ◌∙◌, Bool, true, false, Option, none, some, if◌then◌else◌, if_rule,
  arith,
}
use shared_context_engineeri.MutationTrace.Maintenance.{
  MaintenanceState, MaintenanceState-discrete, maintenance_state_eq, default, StateRead, absent,
  unusable, valid, max_timestamp, usable, evaluate,
}
use shared_context_engineeri.MutationTrace.Maintenance.Plan.{
  normalize, AdvisoryDecision, anchored, no_action, has_no_reference, anchor_if_missing, decide_on,
  decide, changed_from, plan_advisory,
}
use shared_context_engineeri.MutationTrace.Maintenance.Advice.{usable-later, usable-now}

-- what is stored when the pending state is written
abbrev pub stored_after : StateRead → Option MaintenanceState → StateRead
stored_after read none = read
stored_after read (some next) = valid next

-- All the timestamps are usable.
record IsUsable (state : MaintenanceState) (now : ℕ) : Type 0 where
  anchor : usable state.anchor now ≡ state.anchor
  success : usable state.last_success now ≡ state.last_success
  attempt : usable state.last_attempt now ≡ state.last_attempt
  advice : usable state.last_advised now ≡ state.last_advised

normalize-IsUsable : (state : MaintenanceState) (now : ℕ) → IsUsable (normalize state now) now
unfolding normalize
normalize-IsUsable state now = record {
  anchor = usable-later state.anchor now now (omega arith);
  success = usable-later state.last_success now now (omega arith);
  attempt = usable-later state.last_attempt now now (omega arith);
  advice = usable-later state.last_advised now now (omega arith);
}

usable-kept :
    (timestamp : Option ℕ) (now later : ℕ)
    → now ≤ later
    → usable timestamp now ≡ timestamp
    → usable timestamp later ≡ timestamp
usable-kept timestamp now later h e =
    ap (λ s. usable s later) (sym e) ∙ usable-later timestamp now later h ∙ e

IsUsable-later :
    (state : MaintenanceState) (now later : ℕ)
    → now ≤ later
    → IsUsable state now
    → IsUsable state later
IsUsable-later state now later h p = record {
  anchor = usable-kept state.anchor now later h p.anchor;
  success = usable-kept state.last_success now later h p.success;
  attempt = usable-kept state.last_attempt now later h p.attempt;
  advice = usable-kept state.last_advised now later h p.advice;
}

IsUsable-normalize :
    (state : MaintenanceState) (now : ℕ) → IsUsable state now → normalize state now ≡ state
unfolding normalize
IsUsable-normalize state now p = simp (p.anchor, p.success, p.attempt, p.advice)

-- ... and the state has a reference.
pub record IsPlanned (state : MaintenanceState) (now : ℕ) : Type 0 where
  is_usable : IsUsable state now
  referenced : has_no_reference state ≡ false

changed_from-same : (state : MaintenanceState) → changed_from state state ≡ none
unfolding MaintenanceState-discrete
changed_from-same state =
    elim (MaintenanceState-discrete state state)
      as (λ d. (if elim d [ yes _ ↦ false | no _ ↦ true ] then some state else none) ≡ none) [
        | yes _ ↦ refl
        | no n ↦ absurd (n refl)
      ]

changed_from-stored :
    (state next : MaintenanceState)
    → stored_after (valid state) (changed_from state next) ≡ valid next
unfolding MaintenanceState-discrete
changed_from-stored state next =
    elim (MaintenanceState-discrete next state)
      as (λ d.
        stored_after (valid state)
          (if elim d [ yes _ ↦ false | no _ ↦ true ] then some next else none)
        ≡ valid next) [ yes e ↦ ap valid (sym e) | no n ↦ refl ]

anchored-IsPlanned :
    (state : MaintenanceState) (now : ℕ)
    → now ≤ max_timestamp
    → IsUsable state now
    → IsPlanned (record state { anchor = some now }) now
anchored-IsPlanned state now h p = record {
  is_usable = record {
    anchor = usable-now now now (omega arith) h;
    success = p.success;
    attempt = p.attempt;
    advice = p.advice;
  };
  referenced = refl;
}

-- `decide` without an advice
decide_on-IsPlanned_quiet :
    (state : MaintenanceState) (now : ℕ)
    → now ≤ max_timestamp
    → IsUsable state now
    → IsPlanned (decide_on false state now).1 now
decide_on-IsPlanned_quiet state now h p =
    if_rule {A = AdvisoryDecision × MaintenanceState} (λ s. IsPlanned s.1 now)
      (has_no_reference state) {x = (anchored, record state { anchor = some now })}
      {y = (no_action, state)} (λ e. anchored-IsPlanned state now h p)
      (λ e. record { is_usable = p; referenced = e })

anchor_if_missing-IsPlanned :
    (state : MaintenanceState) (now : ℕ)
    → now ≤ max_timestamp
    → IsUsable state now
    → IsPlanned (anchor_if_missing state now) now
anchor_if_missing-IsPlanned state now h p =
    if_rule {A = MaintenanceState} (λ s. IsPlanned s now) (has_no_reference state)
      {x = record state { anchor = some now }} {y = state} (λ e. anchored-IsPlanned state now h p)
      (λ e. record { is_usable = p; referenced = e })

decide_on-IsPlanned :
    (advise : Bool) (state : MaintenanceState) (now : ℕ)
    → now ≤ max_timestamp
    → IsUsable state now
    → IsPlanned (decide_on advise state now).1 now
decide_on-IsPlanned true state now h p =
    anchor_if_missing-IsPlanned (record state { last_advised = some now }) now h
      (record {
        anchor = p.anchor;
        success = p.success;
        attempt = p.attempt;
        advice = usable-now now now (omega arith) h;
      })
decide_on-IsPlanned false state now h p = decide_on-IsPlanned_quiet state now h p

decide-planned :
    (state : MaintenanceState) (now : ℕ)
    → IsPlanned state now
    → (evaluate state now).advise ≡ false
    → decide state now ≡ (no_action, state)
unfolding decide
decide-planned state now p e =
    ap (λ b. decide_on b (normalize state now) now) e
    ∙ ap (λ s. decide_on false s now) (IsUsable-normalize state now p.is_usable)
    ∙ ap (λ b. if b then (anchored, record state { anchor = some now }) else (no_action, state))
        p.referenced

-- A planned state that is not to be advised stays.
pub plan_advisory-planned :
    (state : MaintenanceState) (now : ℕ)
    → IsPlanned state now
    → (evaluate state now).advise ≡ false
    → plan_advisory (valid state) now ≡ (no_action, none)
unfolding plan_advisory
plan_advisory-planned state now p e =
    ap (λ d. (d.0, changed_from state d.1)) (decide-planned state now p e)
    ∙ ap (λ c. (no_action, c)) (changed_from-same state)

-- the state that is stored once the advice is planned
abbrev pub planned_state : StateRead → ℕ → MaintenanceState
planned_state absent now = record default { anchor = some now }
planned_state unusable now = record default { anchor = some now }
planned_state (valid state) now = (decide state now).1

pub stored_after-plan :
    (read : StateRead) (now : ℕ)
    → stored_after read (plan_advisory read now).1 ≡ valid (planned_state read now)
unfolding plan_advisory
stored_after-plan absent now = refl
stored_after-plan unusable now = refl
stored_after-plan (valid state) now = changed_from-stored state (decide state now).1

pub planned_state-IsPlanned :
    (read : StateRead) (now : ℕ) → now ≤ max_timestamp → IsPlanned (planned_state read now) now
unfolding decide
planned_state-IsPlanned absent now h =
    anchored-IsPlanned default now h
      (record { anchor = refl; success = refl; attempt = refl; advice = refl })
planned_state-IsPlanned unusable now h =
    anchored-IsPlanned default now h
      (record { anchor = refl; success = refl; attempt = refl; advice = refl })
planned_state-IsPlanned (valid state) now h =
    decide_on-IsPlanned (evaluate state now).advise (normalize state now) now h
      (normalize-IsUsable state now)

pub IsPlanned-later :
    (state : MaintenanceState) (now later : ℕ)
    → now ≤ later
    → IsPlanned state now
    → IsPlanned state later
IsPlanned-later state now later h p = record {
  is_usable = IsUsable-later state now later h p.is_usable;
  referenced = p.referenced;
}
