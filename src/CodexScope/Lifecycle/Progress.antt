-- ===== src/CodexScope/Lifecycle/Progress.antt =====
-- When everything works, a recovery ends.
pub mod Recovers
use shared_context_engineeri.Common.{
  ℕ, zero, suc, ◌+◌, ◌≤◌, ◌≡◌, refl, sym, ◌∙◌, ap, String, Bool, true, false, not, Option, none,
  some, List, [], ◌∷◌, ◌++◌, length, filter, All, ◌==◌, ◌!=◌, ◌&&◌, ◌||◌, if◌then◌else◌, string_eq,
  Option-cases, Bool-cases, inl, inr, arith,
}
use shared_context_engineeri.Common.Result.{Result, ok, err}
use shared_context_engineeri.Common.Exec.{Exec, pure, raise, continue, ◌>>=◌}
use shared_context_engineeri.CodexScope.{
  AttemptKey, CodexToolIdentity, CodexToolExecution, attempt_key, classify_tool,
}
use shared_context_engineeri.CodexScope.State.{
  RecoveryState, clear, pending, flushing, AdapterAttempt, matches_key, AdapterState,
  AllocatedAttempt, AdmitDecision, AdapterError, StateTransaction, unchanged, persist, find, any,
  new_attempt, with_attempt, admit_clear, admit_tracked_attempt, activate, mark_active,
  remove_attempt, normalize_recovery, arm_recovery, complete_recovery_flush,
  relinquish_recovery_flush,
}
use shared_context_engineeri.CodexScope.World.{
  Payload, start, abandon, flush, World, Action, attempt_io, seam, seam_or_fail, read_state,
  commit_transaction, with_locked_state, with_checked_state, commit_result, with_boundary_lock,
}
use shared_context_engineeri.CodexScope.Lifecycle.{
  for_found, abandon_attempt, is_stale, sweep_stale_lane_predecessors, Admission, granted, denied,
  readmit_after_flush, admit_or_recover, establish_start, establish, tracked_pre_tool_use,
  is_tracked, Response, silent, response_of, BashPolicy, preflight, preflight_allowed,
  after_preflight, handle_pre_tool_use,
}
use shared_context_engineeri.CodexScope.Lifecycle.Rules.{Calls}
use shared_context_engineeri.CodexScope.Lifecycle.Sweep.{has_scope, length-without, length-filter}

-- a world in which every operation to come works
abbrev pub working : AdapterState → Calls → World
working s c = record { state = s; calls = c; fates = [] }

abbrev pub value_of : {A : Type 0} → StateTransaction A → A
value_of (unchanged a) = a
value_of (persist a t) = a

abbrev pub state_of : {A : Type 0} → AdapterState → StateTransaction A → AdapterState
state_of s (unchanged a) = s
state_of s (persist a t) = t

commit-working :
    {A : Type 0} (t : StateTransaction A) (s : AdapterState) (c : Calls)
    → commit_transaction t (working s c) ≡ (ok (value_of t), working (state_of s t) c)
unfolding commit_transaction attempt_io ◌>>=◌
commit-working (unchanged a) s c = refl
commit-working (persist a t) s c = refl

pub locked-working :
    {A : Type 0} (operation : AdapterState → StateTransaction A) (s : AdapterState) (c : Calls)
    → with_locked_state operation (working s c)
      ≡ (ok (value_of (operation s)), working (state_of s (operation s)) c)
unfolding with_locked_state read_state attempt_io ◌>>=◌
locked-working operation s c = commit-working (operation s) s c

-- the state once a recovery is armed
abbrev armed : AdapterState → AdapterState
unfolding arm_recovery
armed s = state_of s (arm_recovery s)

abbrev without : String → AdapterState → AdapterState
unfolding remove_attempt
without id s = state_of s (remove_attempt id s)

abandon-working :
    (a : AdapterAttempt) (s : AdapterState) (c : Calls)
    → abandon_attempt a (working s c)
      ≡ (ok tt, working (without a.scope_id (armed s)) ((abandon a.scope_id, true) ∷ c))
unfolding abandon_attempt seam_or_fail seam ◌>>=◌ armed without
abandon-working a s c = rw (locked-working arm_recovery s c) (
    locked-working (remove_attempt a.scope_id) (state_of s (arm_recovery s))
      ((abandon a.scope_id, true) ∷ c))

abbrev pub is_flushing : RecoveryState → Bool
is_flushing clear = false
is_flushing (pending _) = false
is_flushing (flushing _) = true

-- every attempt is a stale one of the lane
abbrev pub AllStale : AttemptKey → String → List AdapterAttempt → Type 0
AllStale key turn_id attempts = All (λ a. is_stale key turn_id a ≡ true) attempts

AllStale-filter :
    (key : AttemptKey) (turn_id : String) (p : AdapterAttempt → Bool)
    (attempts : List AdapterAttempt)
    → AllStale key turn_id attempts
    → AllStale key turn_id (filter p attempts)
unfolding filter
AllStale-filter key turn_id p [] h = tt
AllStale-filter key turn_id p (a ∷ attempts) h =
    ground (arith, AllStale-filter key turn_id p attempts h.1, h.0)

without-armed :
    (id : String) (s : AdapterState)
    → has_scope id s.attempts ≡ true
    → ((without id (armed s)).attempts ≡ filter (λ a. a.scope_id != id) s.attempts)
      × (is_flushing (without id (armed s)).recovery ≡ false)
unfolding without armed remove_attempt arm_recovery
without-armed id s h = ground (arith, length-without id s.attempts h)

-- what the loop leaves
abbrev pub Swept : ℕ → AttemptKey → String → AdapterState → Calls → Type 0
Swept fuel key turn_id s c =
    (t : AdapterState) × (d : Calls) × (sweep_stale_lane_predecessors fuel key turn_id (working s c)
      ≡ (ok tt, working t d))
    × (t.attempts ≡ [])
    × (is_flushing t.recovery ≡ false)

sweep-nothing :
    (fuel : ℕ) (key : AttemptKey) (turn_id : String) (s : AdapterState) (c : Calls)
    → s.attempts ≡ []
    → sweep_stale_lane_predecessors fuel key turn_id (working s c) ≡ (ok tt, working s c)
unfolding sweep_stale_lane_predecessors read_state attempt_io find ◌>>=◌
sweep-nothing zero key turn_id s c e = ground (arith, e)
sweep-nothing (suc fuel) key turn_id s c e = ground (arith, e)

sweep-one :
    (fuel : ℕ) (key : AttemptKey) (turn_id : String) (s : AdapterState) (c : Calls)
    (a : AdapterAttempt)
    → find (is_stale key turn_id) s.attempts ≡ some a
    → sweep_stale_lane_predecessors (suc fuel) key turn_id (working s c)
      ≡ sweep_stale_lane_predecessors fuel key turn_id
          (working (without a.scope_id (armed s)) ((abandon a.scope_id, true) ∷ c))
unfolding sweep_stale_lane_predecessors read_state attempt_io ◌>>=◌
sweep-one fuel key turn_id s c a e = rw e (
    ap (λ r. continue r.0 (λ _. sweep_stale_lane_predecessors fuel key turn_id) r.1)
      (abandon-working a s c))

pub sweep-Swept :
    (fuel : ℕ) (key : AttemptKey) (turn_id : String) (s : AdapterState) (c : Calls)
    (attempts : List AdapterAttempt)
    → s.attempts ≡ attempts
    → length attempts ≤ fuel
    → AllStale key turn_id attempts
    → is_flushing s.recovery ≡ false
    → Swept fuel key turn_id s c
sweep-Swept fuel key turn_id s c [] e l h f = (s, c, sweep-nothing fuel key turn_id s c e, e, f)
sweep-Swept zero key turn_id s c (a ∷ attempts) e l h f = absurd (omega (arith, l))
sweep-Swept (suc fuel) key turn_id s c (a ∷ attempts) e l h f =
    let others : AdapterAttempt → Bool = λ b. b.scope_id != a.scope_id in
    let found : has_scope a.scope_id s.attempts ≡ true = first_scope in
    let (rest, unflushed) = without-armed a.scope_id s found in
    let (t, d, sweeps, empty, quiet) =
      sweep-Swept fuel key turn_id (without a.scope_id (armed s)) ((abandon a.scope_id, true) ∷ c)
        (filter others attempts) (rest ∙ kept_others)
        (omega (arith, l, length-filter others attempts))
        (AllStale-filter key turn_id others attempts h.1) unflushed in
    (t, d, sweep-one fuel key turn_id s c a first ∙ sweeps, empty, quiet)
  where
    kept_others :
        filter (λ b. b.scope_id != a.scope_id) s.attempts
        ≡ filter (λ b. b.scope_id != a.scope_id) attempts
    kept_others = unfold filter in rw e (ground arith)

    first : find (is_stale key turn_id) s.attempts ≡ some a
    first = unfold find in rw (e, h.0) refl

    first_scope : has_scope a.scope_id s.attempts ≡ true
    first_scope = unfold any in rw e (ground arith)
