-- ===== src/CodexScope/Lifecycle/Progress/Recovers.antt =====
-- The hook before a tool in a lane of stale attempts, when every operation works.
use shared_context_engineeri.Common.{
  ℕ, ◌≡◌, refl, ◌∙◌, ap, String, true, false, [], ◌∷◌, length, string_eq, nat_eq, arith,
}
use shared_context_engineeri.Common.Result.{Result, ok}
use shared_context_engineeri.Common.Exec.{◌>>=◌}
use shared_context_engineeri.CodexScope.{
  AttemptKey, CodexToolExecution, attempt_key, classify_tool, option_string_eq,
}
use shared_context_engineeri.CodexScope.State.{
  RecoveryState, clear, pending, flushing, active, AdapterAttempt, matches_key, AdapterState,
  AllocatedAttempt, AdapterError, persist, find, any, new_attempt, with_attempt, admit_clear,
  admit_tracked_attempt, activate, mark_active, normalize_recovery, complete_recovery_flush,
  cleared,
}
use shared_context_engineeri.CodexScope.World.{
  commit_transaction, commit_result, start, flush, World, attempt_io, seam, seam_or_fail,
  read_state, with_locked_state, with_checked_state, with_boundary_lock,
}
use shared_context_engineeri.CodexScope.Lifecycle.{
  Admission, granted, readmit_after_flush, admit_or_recover, establish_start, establish,
  tracked_pre_tool_use, is_tracked, silent, response_of, BashPolicy, preflight, preflight_allowed,
  handle_pre_tool_use,
}
use shared_context_engineeri.CodexScope.Lifecycle.Rules.{Calls}
use shared_context_engineeri.CodexScope.Lifecycle.Progress.{
  working, state_of, is_flushing, AllStale, sweep-Swept, locked-working,
}

abbrev emptied : AdapterState → RecoveryState → AdapterState
emptied s r = record s { attempts = []; recovery = r }

-- the only attempt, new in the state
abbrev only : AttemptKey → String → String → AdapterState → RecoveryState → AllocatedAttempt
only key turn_id tool_name s r = record {
  attempt = new_attempt (emptied s r) key turn_id tool_name;
  reused = false;
}

-- what the admission comes to
abbrev Granted : AttemptKey → String → String → AdapterState → RecoveryState → Calls → Type 0
Granted key turn_id tool_name s r c =
    (d : Calls) × (admit_or_recover key turn_id tool_name (working (emptied s r) c) ≡ (
      ok (granted (only key turn_id tool_name s r)),
      working (with_attempt (emptied s clear) (new_attempt (emptied s r) key turn_id tool_name)) d,
    ))

complete-own :
    (g : ℕ) (s : AdapterState)
    → s.recovery ≡ flushing g
    → complete_recovery_flush g s ≡ persist cleared (record s { recovery = clear })
unfolding complete_recovery_flush
complete-own g s e = rw e (ground arith)

admit-Granted :
    (key : AttemptKey) (turn_id tool_name : String) (s : AdapterState) (r : RecoveryState)
    (c : Calls)
    → is_flushing r ≡ false
    → Granted key turn_id tool_name s r c
unfolding admit_or_recover with_locked_state read_state attempt_io ◌>>=◌ admit_tracked_attempt
    admit_clear find any seam readmit_after_flush new_attempt commit_transaction
admit-Granted key turn_id tool_name s clear c f = (c, refl)
admit-Granted key turn_id tool_name s (pending g) c f =
    ((flush, true) ∷ c, rw (complete-own g (emptied s (flushing g)) refl) refl)
admit-Granted key turn_id tool_name s (flushing g) c f = ground (arith, f)

abbrev activated : AdapterAttempt → AdapterAttempt
activated a = record a { phase = active }

activate-only :
    (a : AdapterAttempt) (t : AdapterState)
    → t.attempts ≡ a ∷ []
    → mark_active a.scope_id t ≡ ok (persist tt (record t { attempts = activated a ∷ [] }))
unfolding mark_active find activate
activate-only a t e = rw e (ground arith)

establish-working :
    (a : AdapterAttempt) (t : AdapterState) (c : Calls)
    → t.attempts ≡ a ∷ []
    → establish (granted (record { attempt = a; reused = false })) (working t c) ≡ (
      ok (granted (record { attempt = a; reused = false })),
      working (record t { attempts = activated a ∷ [] }) ((start a.scope_id, true) ∷ c),
    )
unfolding establish_start with_checked_state read_state attempt_io ◌>>=◌ seam_or_fail seam
    commit_transaction commit_result
establish-working a t c e = rw (activate-only a t e) refl

-- one attempt, which is active, of the call
abbrev pub Established : AttemptKey → AdapterState → Type 0
Established key s =
    (s.recovery ≡ clear)
    × (a : AdapterAttempt) × (s.attempts ≡ a ∷ [])
    × (a.phase ≡ active)
    × (matches_key key a ≡ true)

-- what a tracked tool comes to once the lane is swept
abbrev Recovered : AttemptKey → Result AdapterError Admission × World → Type 0
Recovered key r = ((response_of r).0 ≡ silent) × Established key (response_of r).1.state

matches-new_attempt :
    (key : AttemptKey) (turn_id tool_name : String) (s : AdapterState)
    → matches_key key (activated (new_attempt s key turn_id tool_name)) ≡ true
unfolding new_attempt
matches-new_attempt key turn_id tool_name s = ground arith

admitted-Recovered :
    (key : AttemptKey) (turn_id tool_name : String) (s : AdapterState) (c : Calls)
    → s.attempts ≡ []
    → is_flushing s.recovery ≡ false
    → Recovered key ((admit_or_recover key turn_id tool_name >>= establish) (working s c))
unfolding ◌>>=◌
admitted-Recovered key turn_id tool_name s c e f =
    let (d, admits) = admit-Granted key turn_id tool_name s s.recovery c f in
    let a = new_attempt (emptied s s.recovery) key turn_id tool_name in
    let t = with_attempt (emptied s clear) a in
    let same : s ≡ emptied s s.recovery = ap (λ l. record s { attempts = l }) e in
    let establishes = establish-working a t d refl in
    let result = ap (λ v. admit_or_recover key turn_id tool_name (working v c)) same ∙ admits in
    rw (result, establishes)
      (
        refl,
        (
          refl,
          activated a,
          refl,
          refl,
          matches-new_attempt key turn_id tool_name (emptied s s.recovery),
        ),
      )

-- what a normalised state keeps
abbrev Normalized : AdapterState → Type 0
unfolding normalize_recovery
Normalized s =
    ((state_of s (normalize_recovery s)).attempts ≡ s.attempts)
    × (is_flushing (state_of s (normalize_recovery s)).recovery ≡ false)

normalize-Normalized :
    (s : AdapterState) (r : RecoveryState) → Normalized (record s { recovery = r })
unfolding Normalized normalize_recovery
normalize-Normalized s clear = (refl, refl)
normalize-Normalized s (pending g) = (refl, refl)
normalize-Normalized s (flushing g) = (refl, refl)

-- If every operation to come works and every attempt is a stale one of the lane of a call of a
-- tracked tool, whatever recovery is outstanding, the hook before the tool, if the bash policy lets
-- it pass, is silent, and after it no recovery is outstanding and the only attempt is an active
-- one of the call.
pub recovery-ends :
    (evaluate : BashPolicy) (execution : CodexToolExecution) (s : AdapterState) (c : Calls)
    → is_tracked (classify_tool execution.identity.tool_name) ≡ true
    → preflight evaluate execution ≡ preflight_allowed
    → AllStale (attempt_key execution.identity) execution.identity.turn_id s.attempts
    → ((handle_pre_tool_use evaluate execution (working s c)).0 ≡ silent)
      × Established
          (attempt_key execution.identity)
          (handle_pre_tool_use evaluate execution (working s c)).1.state
unfolding handle_pre_tool_use tracked_pre_tool_use with_boundary_lock attempt_io ◌>>=◌ Normalized
recovery-ends evaluate execution s c tracked allows stale =
    let key = attempt_key execution.identity in
    let turn_id = execution.identity.turn_id in
    let u = state_of s (normalize_recovery s) in
    let (kept, quiet) = normalize-Normalized s s.recovery in
    let (t, d, sweeps, empty, unflushed) =
      sweep-Swept (length u.attempts) key turn_id u c u.attempts refl (omega arith) (rw kept stale)
        quiet in
    let ends = admitted-Recovered key turn_id execution.identity.tool_name t d empty unflushed in
    rw (tracked, allows, locked-working normalize_recovery s c, sweeps) ends
