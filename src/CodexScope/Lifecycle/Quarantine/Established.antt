-- ===== src/CodexScope/Lifecycle/Quarantine/Established.antt =====
-- What holds when the hook before a tool lets it run.
use shared_context_engineeri.Common.{◌≡◌, true, arith}
use shared_context_engineeri.Common.Result.{Result, ok, err}
use shared_context_engineeri.Common.Exec.Triple.{Post}
use shared_context_engineeri.CodexScope.{
  CodexToolIdentity, CodexToolExecution, attempt_key, classify_tool,
}
use shared_context_engineeri.CodexScope.State.{AdapterError}
use shared_context_engineeri.CodexScope.World.{World}
use shared_context_engineeri.CodexScope.Lifecycle.{
  Admission, granted, denied, tracked_pre_tool_use, is_tracked, silent, response_of, BashPolicy,
  BashPolicyPreflight, preflight, preflight_allowed, preflight_blocked, evaluation_failed,
  after_preflight, handle_pre_tool_use,
}
use shared_context_engineeri.CodexScope.Lifecycle.Rules.{On}
use shared_context_engineeri.CodexScope.Lifecycle.Admit.{Outcome, pre_tool_use-Triple}
use shared_context_engineeri.CodexScope.Lifecycle.Quarantine.{
  is_quarantined, IsQuarantined, is_established, quarantine,
}

abbrev Established : CodexToolIdentity → World → Type 0
Established identity w = is_established (attempt_key identity) w.state w.calls ≡ true

response_of-silent :
    (identity : CodexToolIdentity) (r : Result AdapterError Admission) (w : World)
    → Post
        (λ a.
          On (Outcome (λ _ s c. is_established (attempt_key identity) s c ≡ true) IsQuarantined a))
        (On IsQuarantined)
        (r, w)
    → (response_of (r, w)).0 ≡ silent
    → Established identity (response_of (r, w)).1
response_of-silent identity (ok (granted al)) w h e = h
response_of-silent identity (ok denied) w h e = ground (arith, e)
response_of-silent identity (err f) w h e = ground (arith, e)

by_preflight :
    (p : BashPolicyPreflight) (identity : CodexToolIdentity) (w : World)
    → is_quarantined w.state w.calls ≡ true
    → (after_preflight p identity w).0 ≡ silent
    → Established identity (after_preflight p identity w).1
unfolding after_preflight tracked_pre_tool_use quarantine
by_preflight (preflight_blocked response) identity w h e = ground (arith, e)
by_preflight evaluation_failed identity w h e = ground (arith, e)
by_preflight preflight_allowed identity w h e =
    let r = tracked_pre_tool_use identity w in
    response_of-silent identity r.0 r.1
      ((pre_tool_use-Triple quarantine (attempt_key identity) identity.turn_id
          identity.tool_name).at
        w h)
      e

-- If the hook lets a tracked tool run, then, whatever failed on the way, the scope of its attempt is
-- active, no recovery is outstanding, and no flush is missing.
pub handle_pre_tool_use-silent :
    (evaluate : BashPolicy) (execution : CodexToolExecution) (w : World)
    → is_quarantined w.state w.calls ≡ true
    → is_tracked (classify_tool execution.identity.tool_name) ≡ true
    → (handle_pre_tool_use evaluate execution w).0 ≡ silent
    → let after = (handle_pre_tool_use evaluate execution w).1 in
      is_established (attempt_key execution.identity) after.state after.calls ≡ true
unfolding handle_pre_tool_use
handle_pre_tool_use-silent evaluate execution w h t =
    rw t (by_preflight (preflight evaluate execution) execution.identity w h)
