-- ===== src/MutationTrace/Maintenance/Settled.antt =====
-- What is planned once an advice is recorded.
use shared_context_engineeri.Common.{
  ℕ, ◌+◌, ◌≤◌, ◌<◌, ◌≡◌, ap, ◌∙◌, Bool, true, false, none, some, leb, is_none_or, Option-cases, inl,
  inr, arith,
}
use shared_context_engineeri.MutationTrace.Maintenance.{
  MaintenanceState, maintenance_state_eq, StateRead, absent, unusable, valid, into_state,
  max_timestamp, usable, advised_lately, failure_reminded, evaluate,
}
use shared_context_engineeri.MutationTrace.Maintenance.Plan.{
  normalize, no_action, advised, decide_on, decide, plan_advisory,
}
use shared_context_engineeri.MutationTrace.Maintenance.Planned.{
  IsPlanned-later, plan_advisory-planned, planned_state, planned_state-IsPlanned, stored_after,
  stored_after-plan,
}

advise-advised :
    (state : MaintenanceState) (now later : ℕ)
    → state.last_advised ≡ some now
    → is_none_or (λ attempt. leb attempt now) state.last_attempt ≡ true
    → now ≤ later
    → later < now + 86400000
    → later ≤ max_timestamp
    → (evaluate state later).advise ≡ false
unfolding evaluate advised_lately failure_reminded usable
advise-advised state now later e a h k bound = elim (Option-cases state.last_attempt) [
  | inl n ↦ ground (arith, e, n)
  | inr (t, s) ↦ ground (arith, e, s)
]

-- the last attempt, if there is one, is not after `now`
abbrev pub attempted_by : ℕ → MaintenanceState → Bool
attempted_by now state = is_none_or (λ attempt. leb attempt now) state.last_attempt

decide_on-advised :
    (advise : Bool) (state : MaintenanceState) (now : ℕ)
    → (decide_on advise state now).0 ≡ advised
    → ((decide_on advise state now).1.last_advised ≡ some now)
      × ((decide_on advise state now).1.last_attempt ≡ state.last_attempt)
decide_on-advised true state now e = (ground arith, ground arith)
decide_on-advised false state now e = absurd (ground arith)

attempted_by-normalize :
    (state : MaintenanceState) (now : ℕ)
    → attempted_by now state ≡ true
    → attempted_by now (normalize state now) ≡ true
unfolding normalize usable
attempted_by-normalize state now h = ground arith

planned_state-advised :
    (read : StateRead) (now : ℕ)
    → (plan_advisory read now).0 ≡ advised
    → attempted_by now (into_state read) ≡ true
    → ((planned_state read now).last_advised ≡ some now)
      × (attempted_by now (planned_state read now) ≡ true)
unfolding plan_advisory decide
planned_state-advised absent now e h = absurd (ground arith)
planned_state-advised unusable now e h = absurd (ground arith)
planned_state-advised (valid state) now e h =
    let (a, b) = decide_on-advised (evaluate state now).advise (normalize state now) now e in
    (a, ap (is_none_or λ attempt. leb attempt now) b ∙ attempted_by-normalize state now h)

-- Once an advice is planned and stored, nothing is advised and nothing is to be written for the next
-- 24 hours, if the last attempt that the state knows is not after the advice.
pub plan_advisory-quiet :
    (read : StateRead) (now later : ℕ)
    → (plan_advisory read now).0 ≡ advised
    → attempted_by now (into_state read) ≡ true
    → now ≤ later
    → later < now + 86400000
    → later ≤ max_timestamp
    → plan_advisory (stored_after read (plan_advisory read now).1) later ≡ (no_action, none)
plan_advisory-quiet read now later e h after before bound =
    let (a, b) = planned_state-advised read now e h in
    ap (λ r. plan_advisory r later) (stored_after-plan read now)
    ∙ plan_advisory-planned (planned_state read now) later
        (IsPlanned-later (planned_state read now) now later after
          (planned_state-IsPlanned read now (omega arith)))
        (advise-advised (planned_state read now) now later a b after before bound)
