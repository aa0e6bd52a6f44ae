-- ===== src/CodexScope/Lifecycle.antt =====
-- cli/src/services/hooks/codex_mutation_scope/lifecycle.rs: the handlers of the hooks of Codex. They
-- run under the boundary lock, so that they do not interleave. The logs and the model's provenance
-- are left out, and a JSON payload is a value.
pub mod Rules
pub mod Handlers
pub mod Admit
pub mod Events
pub mod Quarantine
pub mod WellFormed
pub mod Sweep
pub mod Progress
pub mod Tests
use shared_context_engineeri.Common.{
  ℕ, zero, suc, String, Bool, true, false, not, Option, none, some, List, [], ◌∷◌, ◌++◌, length,
  filter, ◌==◌, ◌!=◌, ◌&&◌, if◌then◌else◌, string_eq,
}
use shared_context_engineeri.Common.Text.{is_empty, trim, trim_start, trim_end}
use shared_context_engineeri.Common.Result.{Result, ok, err}
use shared_context_engineeri.Common.Exec.{Exec, pure, raise, ◌>>=◌, ◌>>◌}
use shared_context_engineeri.CodexScope.{
  ToolClassification, tracked_mutation, delegation, untracked, classify_tool, AttemptKey,
  option_string_eq, CodexToolIdentity, CodexToolExecution, CodexHookEvent, pre_tool_use,
  post_tool_use, stop, interrupt, subagent_stop, session_end, attempt_key,
}
use shared_context_engineeri.CodexScope.State.{
  AttemptPhase, pending_start, active, attempt_phase_eq, AdapterAttempt, matches_key,
  in_builtin_lane, AdapterState, AllocatedAttempt, AdmitDecision, admitted, recovery_blocked,
  uncertain_attempt_blocked, stale_predecessor_blocked, flush_claimed, RecoveryFlushCompletion,
  cleared, superseded, AdapterError, io_failed, seam_failed, out_of_fuel, StateTransaction,
  unchanged, persist, find, admit_tracked_attempt, mark_active, remove_attempt, normalize_recovery,
  arm_recovery, complete_recovery_flush, relinquish_recovery_flush,
}
use shared_context_engineeri.CodexScope.World.{
  Action, Payload, World, abandon, attempt_io, close, commit_result, commit_transaction, flush,
  later_fates, next_fate, read_state, seam, seam_or_fail, start, with_boundary_lock,
  with_checked_state, with_locked_state,
}

unfoldable pub abandon_attempt : AdapterAttempt → Action (Unit {0})
unfolding with_locked_state arm_recovery seam_or_fail remove_attempt
abandon_attempt a = with_locked_state arm_recovery >>= λ _.
    seam_or_fail (abandon a.scope_id) >>= λ _. with_locked_state (remove_attempt a.scope_id)

abbrev pub is_stale : AttemptKey → String → AdapterAttempt → Bool
is_stale key turn_id a = in_builtin_lane key.session_id turn_id a && not (matches_key key a)

-- to go on with the attempt that was found, if there is one
abbrev pub for_found :
    Option AdapterAttempt → (AdapterAttempt → Action (Unit {0})) → Action (Unit {0})
for_found none f = pure tt
for_found (some a) f = f a

-- the loop, on fuel
unfoldable pub sweep_stale_lane_predecessors : ℕ → AttemptKey → String → Action (Unit {0})
unfolding read_state find abandon_attempt
sweep_stale_lane_predecessors zero key turn_id = read_state >>= λ current.
    for_found (find (is_stale key turn_id) current.attempts) (λ _. raise out_of_fuel)
sweep_stale_lane_predecessors (suc fuel) key turn_id = read_state >>= λ current.
    for_found (find (is_stale key turn_id) current.attempts)
      (λ stale. abandon_attempt stale >>= λ _. sweep_stale_lane_predecessors fuel key turn_id)

pub data Admission : Type 0 where
  granted : AllocatedAttempt → Admission
  denied : Admission

abbrev pub after_readmission : AdmitDecision → Action Admission
unfolding with_locked_state relinquish_recovery_flush
after_readmission (admitted allocated) = pure (granted allocated)
after_readmission (flush_claimed generation) =
    with_locked_state (relinquish_recovery_flush generation) >>= λ _. pure denied
after_readmission _ = pure denied

unfoldable pub readmit_after_flush : AttemptKey → String → String → Action Admission
unfolding with_locked_state admit_tracked_attempt relinquish_recovery_flush
readmit_after_flush key turn_id tool_name =
    with_locked_state (admit_tracked_attempt key turn_id tool_name) >>= after_readmission

abbrev pub after_completion :
    AttemptKey → String → String → RecoveryFlushCompletion → Action Admission
unfolding readmit_after_flush
after_completion key turn_id tool_name cleared = readmit_after_flush key turn_id tool_name
after_completion key turn_id tool_name superseded = pure denied

abbrev pub after_flush : AttemptKey → String → String → ℕ → Bool → Action Admission
unfolding with_locked_state readmit_after_flush complete_recovery_flush relinquish_recovery_flush
after_flush key turn_id tool_name generation true =
    with_locked_state (complete_recovery_flush generation)
    >>= after_completion key turn_id tool_name
after_flush key turn_id tool_name generation false =
    with_locked_state (relinquish_recovery_flush generation) >>= λ _. pure denied

abbrev pub after_decision : AttemptKey → String → String → AdmitDecision → Action Admission
unfolding seam with_locked_state readmit_after_flush complete_recovery_flush
    relinquish_recovery_flush
after_decision key turn_id tool_name (admitted allocated) = pure (granted allocated)
after_decision key turn_id tool_name (flush_claimed generation) =
    seam flush >>= after_flush key turn_id tool_name generation
after_decision key turn_id tool_name _ = pure denied

unfoldable pub admit_or_recover : AttemptKey → String → String → Action Admission
unfolding with_locked_state admit_tracked_attempt seam readmit_after_flush complete_recovery_flush
    relinquish_recovery_flush
admit_or_recover key turn_id tool_name =
    with_locked_state (admit_tracked_attempt key turn_id tool_name)
    >>= after_decision key turn_id tool_name

unfoldable pub establish_start : AllocatedAttempt → Action (Unit {0})
unfolding seam_or_fail with_checked_state mark_active
establish_start allocated =
    let scope_id = allocated.attempt.scope_id in
    let established : Action (Unit {0}) =
      seam_or_fail (start scope_id) >>= λ _. with_checked_state (mark_active scope_id) in
    if allocated.reused && allocated.attempt.phase == active then pure tt else established

unfoldable pub close_active : AdapterAttempt → Action (Unit {0})
unfolding seam with_locked_state remove_attempt abandon_attempt
close_active a = seam (close a.scope_id) >>= λ worked.
    if worked then with_locked_state (remove_attempt a.scope_id) else abandon_attempt a

unfoldable pub handle_close : AttemptKey → Action (Unit {0})
unfolding read_state find abandon_attempt close_active
handle_close key = read_state >>= λ current.
    for_found (find (matches_key key) current.attempts)
      (λ a. if a.phase == pending_start then abandon_attempt a else close_active a)

unfoldable pub abandon_all : List AdapterAttempt → Action (Unit {0})
unfolding abandon_attempt
abandon_all [] = pure tt
abandon_all (a ∷ attempts) = abandon_attempt a >>= λ _. abandon_all attempts

unfoldable pub cleanup_attempts_matching : (AdapterAttempt → Bool) → Action (Unit {0})
unfolding read_state filter abandon_all
cleanup_attempts_matching predicate =
    read_state >>= λ current. abandon_all (filter predicate current.attempts)

-- what a hook prints: nothing, the refusal, or the response of the bash policy
pub data Response : Type 0 where
  silent deny : Response
  policy_response : String → Response

pub data CodexBashPolicyDecision : Type 0 where
  allowed : CodexBashPolicyDecision
  blocked : String → CodexBashPolicyDecision

-- the evaluation of a command in a directory
abbrev pub BashPolicy : Type 0
BashPolicy = String → String → Result AdapterError CodexBashPolicyDecision

pub data BashPolicyPreflight : Type 0 where
  preflight_allowed : BashPolicyPreflight
  preflight_blocked : String → BashPolicyPreflight
  evaluation_failed : BashPolicyPreflight

abbrev pub preflight_of : Result AdapterError CodexBashPolicyDecision → BashPolicyPreflight
preflight_of (ok allowed) = preflight_allowed
preflight_of (ok (blocked response)) = preflight_blocked response
preflight_of (err e) = evaluation_failed

unfoldable pub codex_bash_policy_preflight :
    BashPolicy → String → Option String → BashPolicyPreflight
unfolding trim_start trim_end
codex_bash_policy_preflight evaluate cwd none = evaluation_failed
codex_bash_policy_preflight evaluate cwd (some command) =
    if is_empty (trim command) then evaluation_failed else preflight_of (evaluate cwd command)

abbrev pub establish : Admission → Action Admission
unfolding establish_start
establish (granted allocated) = establish_start allocated >>= λ _. pure (granted allocated)
establish denied = pure denied

-- past the preflight, for a tool that is tracked
unfoldable pub tracked_pre_tool_use : CodexToolIdentity → Action Admission
unfolding attempt_io with_boundary_lock with_locked_state normalize_recovery
    sweep_stale_lane_predecessors admit_or_recover establish_start
tracked_pre_tool_use identity =
    let key = attempt_key identity in
    attempt_io >>= λ _. with_boundary_lock (
      with_locked_state normalize_recovery >>= λ _.
      (λ w. sweep_stale_lane_predecessors (length w.state.attempts) key identity.turn_id w) >>= λ _.
      admit_or_recover key identity.turn_id identity.tool_name >>= establish)

abbrev pub is_tracked : ToolClassification → Bool
is_tracked tracked_mutation = true
is_tracked _ = false

-- every failure is a refusal
abbrev pub response_of : Result AdapterError Admission × World → Response × World
response_of (ok (granted allocated), w) = (silent, w)
response_of (ok denied, w) = (deny, w)
response_of (err e, w) = (deny, w)

unfoldable pub preflight : BashPolicy → CodexToolExecution → BashPolicyPreflight
unfolding codex_bash_policy_preflight
preflight evaluate execution =
    if execution.identity.tool_name == "Bash"
    then codex_bash_policy_preflight evaluate execution.identity.cwd execution.command
    else preflight_allowed

abbrev pub after_preflight : BashPolicyPreflight → CodexToolIdentity → World → Response × World
unfolding tracked_pre_tool_use
after_preflight (preflight_blocked response) identity w = (policy_response response, w)
after_preflight evaluation_failed identity w = (deny, w)
after_preflight preflight_allowed identity w = response_of (tracked_pre_tool_use identity w)

unfoldable pub handle_pre_tool_use : BashPolicy → CodexToolExecution → World → Response × World
unfolding classify_tool preflight tracked_pre_tool_use
handle_pre_tool_use evaluate execution w =
    let answer = after_preflight (preflight evaluate execution) execution.identity w in
    if not (is_tracked (classify_tool execution.identity.tool_name)) then (silent, w) else answer

-- the cleanup at the end of a turn, an agent or a session
unfoldable pub cleanup : (AdapterAttempt → Bool) → Action Response
unfolding attempt_io with_boundary_lock cleanup_attempts_matching
cleanup predicate = attempt_io >>= λ _.
    with_boundary_lock (cleanup_attempts_matching predicate) >>= λ _. pure silent

unfoldable pub handle_post_tool_use : CodexToolIdentity → Action Response
unfolding classify_tool attempt_io with_boundary_lock handle_close
handle_post_tool_use identity =
    let tracked : Action Response = attempt_io >>= λ _.
    with_boundary_lock (handle_close (attempt_key identity)) >>= λ _. pure silent in
    if not (is_tracked (classify_tool identity.tool_name)) then pure silent else tracked

abbrev pub succeeded : Response × World → Result AdapterError Response × World
succeeded (response, w) = (ok response, w)

unfoldable pub dispatch_codex_hook_event : BashPolicy → CodexHookEvent → Action Response
unfolding handle_pre_tool_use handle_post_tool_use cleanup
dispatch_codex_hook_event evaluate (pre_tool_use execution) w =
    succeeded (handle_pre_tool_use evaluate execution w)
dispatch_codex_hook_event evaluate (post_tool_use identity) w = handle_post_tool_use identity w
dispatch_codex_hook_event evaluate (stop turn) w =
    cleanup (λ a. a.session_id == turn.session_id && a.agent_id == none) w
dispatch_codex_hook_event evaluate (interrupt turn) w =
    cleanup (λ a. a.session_id == turn.session_id) w
dispatch_codex_hook_event evaluate (subagent_stop agent) w =
    cleanup (λ a. a.session_id == agent.session_id && a.agent_id == some agent.agent_id) w
dispatch_codex_hook_event evaluate (session_end session) w =
    cleanup (λ a. a.session_id == session.session_id) w

-- The hooks one after another, each whatever the one before it came to.
unfoldable pub run : BashPolicy → List CodexHookEvent → World → World
unfolding dispatch_codex_hook_event
run evaluate [] w = w
run evaluate (event ∷ events) w = run evaluate events (dispatch_codex_hook_event evaluate event w).1
