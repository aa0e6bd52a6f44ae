-- ===== src/CodexScope/Lifecycle/Tests.antt =====
-- A lane with an attempt whose start is not known to have been recorded, and the hook before the
-- next tool of the lane.
use shared_context_engineeri.Common.{
  ◌≡◌, refl, true, false, none, some, List, [], ◌∷◌, contains, filter, String-discrete, arith,
}
use native.Mathlib.Decide.{ℕ_discrete}
use shared_context_engineeri.Common.Text.{decimal_from, is_whitespace, trim_start, trim_end}
use shared_context_engineeri.Common.Exec.{◌>>=◌}
use shared_context_engineeri.Common.Result.{ok}
use shared_context_engineeri.CodexScope.{
  classify_tool, attempt_key, CodexToolIdentity, CodexToolExecution, CodexHookEvent, pre_tool_use,
  post_tool_use, format_codex_scope_id, OptionString-discrete,
}
use shared_context_engineeri.CodexScope.State.{
  new_attempt, AttemptPhase-discrete, pending_start, pending, AdapterAttempt, AdapterState, find,
  any, admit_clear, admit_tracked_attempt, activate, mark_active, remove_attempt,
  normalize_recovery, arm_recovery, complete_recovery_flush, relinquish_recovery_flush,
}
use shared_context_engineeri.CodexScope.World.{
  commit_transaction, commit_result, World, attempt_io, seam, seam_or_fail, read_state,
  with_locked_state, with_checked_state, with_boundary_lock,
}
use shared_context_engineeri.CodexScope.Lifecycle.{
  abandon_attempt, sweep_stale_lane_predecessors, readmit_after_flush, admit_or_recover,
  establish_start, close_active, handle_close, abandon_all, cleanup_attempts_matching, silent,
  allowed, BashPolicy, codex_bash_policy_preflight, tracked_pre_tool_use, preflight,
  handle_pre_tool_use, cleanup, handle_post_tool_use, dispatch_codex_hook_event, run,
}
use shared_context_engineeri.CodexScope.Lifecycle.Quarantine.{
  is_quarantined, is_established, run-is_quarantined,
}
use shared_context_engineeri.CodexScope.Lifecycle.Quarantine.Established.{
  handle_pre_tool_use-silent,
}
use shared_context_engineeri.CodexScope.Lifecycle.WellFormed.{
  IsWellFormed, Lane-discrete, AttemptKey-discrete,
}
use shared_context_engineeri.CodexScope.Lifecycle.WellFormed.Kept.{run-IsWellFormed_state}
use shared_context_engineeri.CodexScope.Lifecycle.Sweep.{is_fueled, sweep-is_fueled}
use shared_context_engineeri.CodexScope.Lifecycle.Progress.{working}
use shared_context_engineeri.CodexScope.Lifecycle.Progress.Recovers.{Established, recovery-ends}

machinery : Unit {0}
unfolding contains filter String-discrete ℕ_discrete decimal_from is_whitespace trim_start trim_end
    ◌>>=◌ classify_tool format_codex_scope_id AttemptPhase-discrete OptionString-discrete find any
    admit_clear admit_tracked_attempt activate mark_active remove_attempt normalize_recovery
    arm_recovery complete_recovery_flush relinquish_recovery_flush attempt_io seam seam_or_fail
    read_state commit_transaction commit_result new_attempt with_locked_state with_checked_state
    with_boundary_lock abandon_attempt sweep_stale_lane_predecessors readmit_after_flush
    admit_or_recover establish_start close_active handle_close abandon_all cleanup_attempts_matching
    codex_bash_policy_preflight tracked_pre_tool_use preflight handle_pre_tool_use cleanup
    handle_post_tool_use dispatch_codex_hook_event run Lane-discrete AttemptKey-discrete
machinery = tt

abbrev old : AdapterAttempt
old = record {
  attempt_seq = 1;
  scope_id = "cx-tool-v1|n=1|s=1:s|a=0:|t=1:t";
  session_id = "s";
  turn_id = "turn";
  agent_id = none;
  tool_use_id = "t";
  tool_name = "apply_patch";
  phase = pending_start;
}

abbrev lane : AdapterState
lane = record {
  version = 3;
  next_attempt_seq = 2;
  next_recovery_generation = 2;
  recovery = pending 1;
  attempts = old ∷ [];
}

-- the seventh operation, the abandonment of the old scope, fails
abbrev failing : World
failing = record {
  state = lane;
  calls = [];
  fates = true ∷ true ∷ true ∷ true ∷ true ∷ true ∷ false ∷ [];
}

abbrev identity : CodexToolIdentity
identity = record {
  session_id = "s";
  turn_id = "turn";
  cwd = "/repo";
  agent_id = none;
  tool_name = "Bash";
  tool_use_id = "u";
}

abbrev execution : CodexToolExecution
execution = record {
  identity = identity;
  agent_type = none;
  model = none;
  command = some "cargo test";
}

abbrev allow : BashPolicy
allow cwd command = ok allowed

abbrev hooks : List CodexHookEvent
hooks = pre_tool_use execution ∷ post_tool_use identity ∷ []

recovers : (handle_pre_tool_use allow execution (working lane [])).0 ≡ silent
unfolding machinery
recovers = refl

all_closed : (run allow hooks (working lane [])).state.attempts ≡ []
unfolding machinery
all_closed = refl

run-is_quarantined_example :
    is_quarantined (run allow hooks failing).state (run allow hooks failing).calls ≡ true
run-is_quarantined_example = run-is_quarantined allow hooks failing refl

handle_pre_tool_use-silent_example :
    let after = (handle_pre_tool_use allow execution (working lane [])).1 in
    is_established (attempt_key identity) after.state after.calls ≡ true
unfolding machinery
handle_pre_tool_use-silent_example =
    handle_pre_tool_use-silent allow execution (working lane []) refl refl refl

lane-IsWellFormed : IsWellFormed lane
unfolding machinery
lane-IsWellFormed = record {
  keys = refl;
  lanes = refl;
  one_pending = omega arith;
  numbered = (omega arith, tt);
  generation = omega arith;
}

run-IsWellFormed_state_example : IsWellFormed (run allow hooks failing).state
run-IsWellFormed_state_example = run-IsWellFormed_state allow hooks failing lane-IsWellFormed

sweep-is_fueled_example :
    is_fueled (sweep_stale_lane_predecessors 1 (attempt_key identity) "turn" failing).0 ≡ true
sweep-is_fueled_example = sweep-is_fueled 1 (attempt_key identity) "turn" failing (omega arith)

recovery-ends_example :
    ((handle_pre_tool_use allow execution (working lane [])).0 ≡ silent)
    × Established
        (attempt_key identity)
        (handle_pre_tool_use allow execution (working lane [])).1.state
unfolding machinery
recovery-ends_example = recovery-ends allow execution lane [] refl refl (refl, tt)
