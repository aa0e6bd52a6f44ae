-- ===== src/MutationTrace/Protocol/Commit/Fields.antt =====
-- The parts of an accepted commit: what was resolved, the scope's transition, the event key.
use shared_context_engineeri.Common.{
  ◌≡◌, inl, inr, some, lookup, lookup-modify, contains, contains-set_insert, Option-cases, ◌==◌,
  ◌||◌, ◌&&◌, is_some_and, IsUnique, modify-IsUnique, if◌then◌else◌, arith,
}
use mathlib.Core.Option
use shared_context_engineeri.MutationTrace.Types.{
  AttemptId, EventKey, ScopeId, active, closed, ScopeState, ProtocolState,
}
use shared_context_engineeri.MutationTrace.Equality.{
  worktree_id_eq, scope_id_eq, attempt_id_eq, event_key_eq, scope_status_eq,
}
use shared_context_engineeri.MutationTrace.Boundary.{
  boundary_worktree, boundary_scope, boundary_event_key, is_start, is_close, is_hook,
}
use shared_context_engineeri.MutationTrace.Protocol.{resolve_worktree}
use shared_context_engineeri.MutationTrace.Protocol.Commit.{
  CommitEvaluation, ResolvedAttempt, resolve, set_status, apply_scope, apply_event_key,
}

-- what `resolve` reads
pub record Resolved (s : ProtocolState) (attempt : AttemptId) (r : ResolvedAttempt) : Type 0 where
  pub planned_eq : lookup attempt s.attempts ≡ some r.planned
  pub boundary_eq : r.boundary ≡ r.planned.boundary
  pub worktree_eq : boundary_worktree r.boundary s.scopes ≡ some r.worktree
  pub worktree_state_eq : lookup r.worktree s.worktrees ≡ some r.worktree_state
  pub scope_eq : r.scope_id ≡ boundary_scope r.boundary

pub resolve-Resolved :
    (s : ProtocolState) (attempt : AttemptId) (r : ResolvedAttempt)
    → resolve s attempt ≡ some r
    → Resolved s attempt r
unfolding resolve resolve_worktree
resolve-Resolved s attempt r h = ground arith

-- one scope after the transition of the boundary's scope
abbrev pub after_transition : ResolvedAttempt → CommitEvaluation → ScopeState → ScopeState
after_transition r ev k =
    if is_start r.boundary && ev.observes
    then set_status active k
    else if is_close r.boundary && ev.observes
    then set_status closed k
    else k

pub lookup-apply_scope :
    (r : ResolvedAttempt) (ev : CommitEvaluation) (s : ProtocolState) (j : ScopeId)
    → lookup j (apply_scope r ev s).scopes ≡ (
        if is_some_and (λ scope. scope == j) r.scope_id
        then Option.map (after_transition r ev) (lookup j s.scopes)
        else lookup j s.scopes)
unfolding apply_scope
lookup-apply_scope r ev s j = elim (Option-cases r.scope_id) [
  | inl e ↦ ground arith
  | inr (scope, e) ↦ ground (
    arith,
    lookup-modify scope j (set_status active) s.scopes,
    lookup-modify scope j (set_status closed) s.scopes,
  )
]

pub apply_scope-IsUnique :
    (r : ResolvedAttempt) (ev : CommitEvaluation) (s : ProtocolState)
    → IsUnique s.scopes
    → IsUnique (apply_scope r ev s).scopes
unfolding apply_scope
apply_scope-IsUnique r ev s u = elim (Option-cases r.scope_id) [
  | inl e ↦ ground arith
  | inr (scope, e) ↦ ground (
    arith,
    modify-IsUnique scope (set_status active) s.scopes u,
    modify-IsUnique scope (set_status closed) s.scopes u,
  )
]

pub contains-apply_event_key :
    (r : ResolvedAttempt) (s : ProtocolState) (k : EventKey)
    → contains k (apply_event_key r s).processed_events ≡ (
        is_hook r.boundary && is_some_and (λ key. k == key) (boundary_event_key r.boundary)
        || contains k s.processed_events)
unfolding apply_event_key
contains-apply_event_key r s k = elim (Option-cases (boundary_event_key r.boundary)) [
  | inl e ↦ ground arith
  | inr (key, e) ↦ ground (arith, contains-set_insert key k s.processed_events)
]
