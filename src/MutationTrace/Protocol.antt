-- ===== src/MutationTrace/Protocol.antt =====
-- cli/src/services/mutation_trace/protocol.rs: attribution, and the preparation of an attempt.
pub mod Commit
pub mod Recovery
pub mod Actions
pub mod Evolution
pub mod WellFormed
pub mod Runs
pub mod Evidence
pub mod Replay
pub mod Exclusive
pub mod Quarantine
pub mod Ledger
pub mod Refinement
pub mod Sample
pub mod Tests
use mathlib.Core.List.{[], ◌∷◌}
use shared_context_engineeri.Common.{
  ℕ, ◌+◌, Bool, true, false, Option, none, some, List, ltb, if◌then◌else◌, ◌==◌, ◌!=◌, ◌&&◌, ◌||◌,
  not, is_some_and, is_none_or, ◌>>=◌, lookup, insert, keys_where, contains,
}
use shared_context_engineeri.MutationTrace.Types.{
  WorktreeId, ScopeId, TreeId, AttemptId, ActorKind, claude_code, codex, open_code, pi, FailureKind,
  healthy, ScopeStatus, never_seen, AttemptStatus, available, prepared, Attribution,
  ineligible_unscoped, ai_exclusive, ai_contended, Boundary, WorktreeState, ScopeState,
  AttemptState, ProtocolState,
}
use shared_context_engineeri.MutationTrace.Equality.{
  worktree_id_eq, scope_id_eq, attempt_id_eq, failure_kind_eq, scope_status_eq, attempt_status_eq,
}
use shared_context_engineeri.MutationTrace.Boundary.{
  is_live_scope, boundary_worktree, boundary_scope, is_close,
}

abbrev pub u64_max : ℕ
u64_max = 18446744073709551615

-- `checked_add(1)` on a `u64`
unfoldable pub next_revision : ℕ → Option ℕ
next_revision revision = if ltb revision u64_max then some (revision + 1) else none

-- the closure of the filter in `live_scopes_on`
abbrev pub live_on : WorktreeId → ScopeState → Bool
live_on worktree s = s.worktree_id == worktree && is_live_scope s

unfoldable pub live_scopes_on : ProtocolState → WorktreeId → List ScopeId
unfolding keys_where
live_scopes_on state worktree = keys_where (live_on worktree) state.scopes

-- the last two branches, by the number of live scopes
abbrev pub by_count : List ScopeId → Attribution
by_count [] = ineligible_unscoped
by_count (s ∷ []) = ai_exclusive s
by_count (_ ∷ _ ∷ _) = ai_contended

abbrev pub is_unhealthy : WorktreeState → Bool
is_unhealthy w = w.failure_kind != healthy || w.needs_rebaseline

unfoldable pub attribution_for : ProtocolState → WorktreeId → Attribution
unfolding lookup contains
attribution_for state worktree =
    let unhealthy = is_none_or is_unhealthy (lookup worktree state.worktrees) in
    if unhealthy || contains worktree state.external_taint
    then ineligible_unscoped
    else by_count (live_scopes_on state worktree)

unfoldable pub requires_boundary_confirmation : ActorKind → Bool
requires_boundary_confirmation codex = true
requires_boundary_confirmation open_code = true
requires_boundary_confirmation pi = true
requires_boundary_confirmation claude_code = false

unfoldable pub scope_requires_confirmation : ProtocolState → ScopeId → Bool
unfolding lookup
scope_requires_confirmation state scope =
    is_some_and (λ s. requires_boundary_confirmation s.actor_kind) (lookup scope state.scopes)

unfoldable pub boundary_confirms_scope : Boundary → ScopeId → Bool
unfolding is_close boundary_scope
boundary_confirms_scope b scope = is_close b && is_some_and (λ s. s == scope) (boundary_scope b)

-- `iter().any`
unfoldable pub has_unconfirmed_required_scope : ProtocolState → List ScopeId → Boundary → Bool
has_unconfirmed_required_scope state [] b = false
has_unconfirmed_required_scope state (scope ∷ live) b =
    scope_requires_confirmation state scope && not (boundary_confirms_scope b scope)
    || has_unconfirmed_required_scope state live b

unfoldable pub boundary_closes_never_seen_scope : ProtocolState → Boundary → Bool
unfolding is_close boundary_scope lookup
boundary_closes_never_seen_scope state b =
    is_close b
    && is_some_and (λ s. s.status == never_seen)
        (boundary_scope b >>= λ scope. lookup scope state.scopes)

unfoldable pub attribution_for_boundary : ProtocolState → WorktreeId → Boundary → Attribution
attribution_for_boundary state worktree b =
    if boundary_closes_never_seen_scope state b
    then ineligible_unscoped
    else if has_unconfirmed_required_scope state (live_scopes_on state worktree) b
    then ineligible_unscoped
    else attribution_for state worktree

abbrev pub already_underway : Option AttemptState → Bool
already_underway = is_some_and (λ existing. existing.status != available)

-- the last part of `prepare`, past its guards
abbrev pub prepared_attempt : Boundary → TreeId → WorktreeState → AttemptState
prepared_attempt b observed_tree w = record {
  status = prepared;
  boundary = b;
  expected_revision = w.revision;
  before_tree = w.cursor_tree;
  after_tree = observed_tree;
}

-- the worktree that a boundary resolves to, and its state
unfoldable pub resolve_worktree : ProtocolState → Boundary → Option (WorktreeId × WorktreeState)
unfolding boundary_worktree lookup
resolve_worktree state b = do
  worktree ← boundary_worktree b state.scopes
  w ← lookup worktree state.worktrees
  some (worktree, w)

unfoldable pub prepare : ProtocolState → AttemptId → Boundary → TreeId → ProtocolState
unfolding lookup insert
prepare state attempt b observed_tree =
    if already_underway (lookup attempt state.attempts)
    then state
    else elim (resolve_worktree state b) [
      | none ↦ state
      | some r ↦ record state {
        attempts = insert attempt (prepared_attempt b observed_tree r.1) state.attempts;
      }
    ]
