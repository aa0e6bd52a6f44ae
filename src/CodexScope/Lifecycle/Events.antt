-- ===== src/CodexScope/Lifecycle/Events.antt =====
-- A condition that every transaction and every call keeps is kept by every hook.
use shared_context_engineeri.Common.{Bool, List, [], ◌∷◌, Bool-cases, inl, inr}
use shared_context_engineeri.Common.Result.{Result, ok, err}
use shared_context_engineeri.Common.Exec.{pure, ◌>>=◌}
use shared_context_engineeri.Common.Exec.Triple.{Post, Triple-pure, Triple-bind, Keeps}
use shared_context_engineeri.CodexScope.{AttemptKey, CodexToolIdentity, attempt_key}
use shared_context_engineeri.CodexScope.State.{
  AdapterAttempt, attempt_phase_eq, AdapterState, AdapterError,
}
use shared_context_engineeri.CodexScope.World.{Action, attempt_io, with_boundary_lock, World}
use shared_context_engineeri.CodexScope.Lifecycle.{
  Admission, granted, denied, handle_close, cleanup_attempts_matching, tracked_pre_tool_use,
}
use shared_context_engineeri.CodexScope.Lifecycle.Rules.{On, Calls, io-Triple, boundary-Triple}
use shared_context_engineeri.CodexScope.{
  classify_tool, CodexToolExecution, CodexHookEvent, pre_tool_use, post_tool_use, stop, interrupt,
  subagent_stop, session_end,
}
use shared_context_engineeri.CodexScope.Lifecycle.{
  is_tracked, Response, silent, response_of, BashPolicy, preflight, BashPolicyPreflight,
  preflight_allowed, preflight_blocked, evaluation_failed, after_preflight, handle_pre_tool_use,
  cleanup, handle_post_tool_use, dispatch_codex_hook_event, run,
}
use shared_context_engineeri.CodexScope.Lifecycle.Handlers.{
  Upkeep, handle_close-Keeps, cleanup_attempts-Keeps,
}
use shared_context_engineeri.CodexScope.Lifecycle.Admit.{Outcome, pre_tool_use-Triple}

module _ (u : Upkeep) where
  abbrev Answered : Response × World → Type 0
  Answered r = u.Kept r.1.state r.1.calls

  done_kept :
      (key : AttemptKey) (a : Admission) (s : AdapterState) (c : Calls)
      → Outcome (λ _. u.Established key) u.Kept a s c
      → u.Kept s c
  done_kept key (granted al) s c h = u.established_kept key s c h
  done_kept key denied s c h = h

  response_of-Kept :
      (key : AttemptKey) (r : Result AdapterError Admission) (w : World)
      → Post (λ a. On (Outcome (λ _. u.Established key) u.Kept a)) (On u.Kept) (r, w)
      → Answered (response_of (r, w))
  response_of-Kept key (ok (granted al)) w h = u.established_kept key w.state w.calls h
  response_of-Kept key (ok denied) w h = h
  response_of-Kept key (err e) w h = h

  by_preflight :
      (p : BashPolicyPreflight) (identity : CodexToolIdentity) (w : World)
      → u.Kept w.state w.calls
      → Answered (after_preflight p identity w)
  unfolding after_preflight tracked_pre_tool_use
  by_preflight (preflight_blocked response) identity w h = h
  by_preflight evaluation_failed identity w h = h
  by_preflight preflight_allowed identity w h =
      let key = attempt_key identity in
      let r = tracked_pre_tool_use identity w in
      response_of-Kept key r.0 r.1
        ((pre_tool_use-Triple u key identity.turn_id identity.tool_name).at w h)

  handle_pre_tool_use-Kept :
      (evaluate : BashPolicy) (execution : CodexToolExecution) (w : World)
      → u.Kept w.state w.calls
      → Answered (handle_pre_tool_use evaluate execution w)
  unfolding handle_pre_tool_use
  handle_pre_tool_use-Kept evaluate execution w h =
      elim (Bool-cases (is_tracked (classify_tool execution.identity.tool_name))) [
        | inl e ↦ rw e (by_preflight (preflight evaluate execution) execution.identity w h)
        | inr e ↦ rw e h
      ]

  same : (s : AdapterState) (c : Calls) → u.Kept s c → u.Kept s c
  same s c h = h

  locked-Keeps :
      (m : Action (Unit {0}))
      → Keeps (On u.Kept) m
      → Keeps (On u.Kept) (attempt_io >>= λ _. with_boundary_lock m >>= λ _. pure silent)
  locked-Keeps m k = Triple-bind {Q = λ _. On u.Kept} (io-Triple u.Kept u.Kept same) (λ _.
      Triple-bind {Q = λ _. On u.Kept} (boundary-Triple u.Kept (λ _. u.Kept) u.Kept m same k)
        (λ _. Triple-pure silent (λ w h. h)))

  cleanup-Keeps : (predicate : AdapterAttempt → Bool) → Keeps (On u.Kept) (cleanup predicate)
  unfolding cleanup
  cleanup-Keeps predicate =
      locked-Keeps (cleanup_attempts_matching predicate) (cleanup_attempts-Keeps u predicate)

  handle_post_tool_use-Keeps :
      (identity : CodexToolIdentity) → Keeps (On u.Kept) (handle_post_tool_use identity)
  unfolding handle_post_tool_use
  handle_post_tool_use-Keeps identity =
      elim (Bool-cases (is_tracked (classify_tool identity.tool_name))) [
        | inl e ↦ rw e (
            locked-Keeps (handle_close (attempt_key identity))
              (handle_close-Keeps u (attempt_key identity)))
        | inr e ↦ rw e (Triple-pure silent (λ w h. h))
      ]

  pub dispatch-Keeps :
      (evaluate : BashPolicy) (event : CodexHookEvent)
      → Keeps (On u.Kept) (dispatch_codex_hook_event evaluate event)
  unfolding dispatch_codex_hook_event
  dispatch-Keeps evaluate (pre_tool_use execution) = record {
    at = λ w h. handle_pre_tool_use-Kept evaluate execution w h;
  }
  dispatch-Keeps evaluate (post_tool_use identity) = record {
    at = λ w h. (handle_post_tool_use-Keeps identity).at w h;
  }
  dispatch-Keeps evaluate (stop turn) = record { at = λ w h. (cleanup-Keeps _).at w h }
  dispatch-Keeps evaluate (interrupt turn) = record { at = λ w h. (cleanup-Keeps _).at w h }
  dispatch-Keeps evaluate (subagent_stop agent) = record { at = λ w h. (cleanup-Keeps _).at w h }
  dispatch-Keeps evaluate (session_end session) = record { at = λ w h. (cleanup-Keeps _).at w h }

  either :
      (r : Result AdapterError Response) (w : World)
      → Post (λ _. On u.Kept) (On u.Kept) (r, w)
      → u.Kept w.state w.calls
  either (ok a) w h = h
  either (err e) w h = h

  pub run-Kept :
      (evaluate : BashPolicy) (events : List CodexHookEvent) (w : World)
      → u.Kept w.state w.calls
      → u.Kept (run evaluate events w).state (run evaluate events w).calls
  unfolding run
  run-Kept evaluate [] w h = h
  run-Kept evaluate (event ∷ events) w h =
      let r = dispatch_codex_hook_event evaluate event w in
      run-Kept evaluate events r.1 (either r.0 r.1 ((dispatch-Keeps evaluate event).at w h))
