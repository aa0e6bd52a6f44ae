-- ===== src/MutationTrace/Protocol/Commit.antt =====
-- cli/src/services/mutation_trace/protocol.rs: `commit`, as `ResolvedAttempt::resolve`, `evaluate`
-- and `apply`. The two calls of `expect` in `apply` are panics, for which the result is `none`.
pub mod Cases
pub mod Fields
use shared_context_engineeri.Common.{
  ℕ, Bool, true, false, Option, none, some, if◌then◌else◌, ◌==◌, ◌!=◌, ◌&&◌, ◌||◌, not, is_some_and,
  is_none_or, ◌>>=◌, lookup, insert, modify, contains, set_insert, nat_eq,
}
use shared_context_engineeri.MutationTrace.Types.{
  WorktreeId, ScopeId, AttemptId, EventKey, TreeId, never_seen, active, closed, ScopeStatus,
  prepared, committed, rejected, Boundary, WorktreeState, ScopeState, AttemptState, MutationEvent,
  ProtocolState,
}
use shared_context_engineeri.MutationTrace.Equality.{
  worktree_id_eq, scope_id_eq, tree_id_eq, attempt_id_eq, event_key_eq, scope_status_eq,
  attempt_status_eq, mutation_event_eq,
}
use shared_context_engineeri.MutationTrace.Boundary.{
  is_live_scope, boundary_scope, boundary_event_key, is_start, is_advance, is_close, is_flush,
  is_hook,
}
use shared_context_engineeri.MutationTrace.Protocol.{
  next_revision, live_scopes_on, attribution_for_boundary, resolve_worktree,
}

pub record CommitEvaluation : Type 0 where
  pub accepted : Bool
  pub observes : Bool
  pub observed_change : Bool
  pub changed : Bool
  pub advances_revision : Bool

-- `CommitEvaluation::default()`
abbrev pub no_evaluation : CommitEvaluation
no_evaluation = record {
  accepted = false;
  observes = false;
  observed_change = false;
  changed = false;
  advances_revision = false;
}

pub record CommitOutcome : Type 0 where
  pub evaluation : CommitEvaluation
  pub state : ProtocolState

pub record ResolvedAttempt : Type 0 where
  pub planned : AttemptState
  pub boundary : Boundary
  pub worktree : WorktreeId
  pub worktree_state : WorktreeState
  pub scope_id : Option ScopeId

unfoldable pub resolve : ProtocolState → AttemptId → Option ResolvedAttempt
unfolding lookup
resolve state attempt = do
  planned ← lookup attempt state.attempts
  r ← resolve_worktree state planned.boundary
  some (record {
    planned = planned;
    boundary = planned.boundary;
    worktree = r.0;
    worktree_state = r.1;
    scope_id = boundary_scope planned.boundary;
  })

-- the event of a hook boundary was not processed before
unfoldable pub is_new_event : Boundary → ProtocolState → Bool
is_new_event b state =
    not (is_hook b)
    || is_none_or (λ key. not (contains key state.processed_events)) (boundary_event_key b)

unfoldable pub is_fresh : ResolvedAttempt → ProtocolState → Bool
is_fresh r state =
    r.planned.status == prepared
    && not (contains r.worktree state.external_taint)
    && r.planned.expected_revision == r.worktree_state.revision
    && r.planned.before_tree == r.worktree_state.cursor_tree
    && is_new_event r.boundary state

unfoldable pub observes_scope : Boundary → Option ScopeState → Bool
observes_scope b current =
    if is_start b
    then is_some_and (λ s. s.status == never_seen) current
    else if is_advance b
    then is_some_and is_live_scope current
    else if is_close b
    then is_some_and (λ s. s.status == never_seen || is_live_scope s) current
    else true

unfoldable pub evaluate : ResolvedAttempt → ProtocolState → CommitEvaluation
unfolding lookup
evaluate r state =
    let observes = observes_scope r.boundary (r.scope_id >>= λ scope. lookup scope state.scopes) in
    let tree_changed = observes && r.planned.before_tree != r.planned.after_tree in
    let would_advance_revision = not (is_flush r.boundary) || tree_changed in
    let has_revision_headroom =
      not would_advance_revision
      || is_some_and (λ _. true) (next_revision r.worktree_state.revision) in
    let accepted = is_fresh r state && has_revision_headroom in
    let observed_change = accepted && tree_changed in
    record {
      accepted = accepted;
      observes = observes;
      observed_change = observed_change;
      changed = observed_change && not r.worktree_state.needs_rebaseline;
      advances_revision = accepted && (not (is_flush r.boundary) || observed_change);
    }

-- the writes to the entry of the attempt
abbrev pub reject_prepared : AttemptState → AttemptState
reject_prepared entry =
    if entry.status == prepared then record entry { status = rejected } else entry

abbrev pub set_committed : AttemptState → AttemptState
set_committed entry = record entry { status = committed }

abbrev pub set_status : ScopeStatus → ScopeState → ScopeState
set_status status entry = record entry { status = status }

-- the transition of the boundary's own scope
unfoldable pub apply_scope : ResolvedAttempt → CommitEvaluation → ProtocolState → ProtocolState
unfolding modify
apply_scope r ev state = elim r.scope_id [
  | none ↦ state
  | some scope ↦
      if is_start r.boundary && ev.observes
      then record state { scopes = modify scope (set_status active) state.scopes }
      else if is_close r.boundary && ev.observes
      then record state { scopes = modify scope (set_status closed) state.scopes }
      else state
]

abbrev pub next_cursor : ResolvedAttempt → CommitEvaluation → TreeId
next_cursor r ev =
    if ev.observes && not r.worktree_state.needs_rebaseline
    then r.planned.after_tree
    else r.worktree_state.cursor_tree

abbrev pub advanced_worktree : ResolvedAttempt → CommitEvaluation → ℕ → WorktreeState
advanced_worktree r ev revision = record r.worktree_state {
  cursor_tree = next_cursor r ev;
  revision = revision;
}

unfoldable pub apply_worktree :
    ResolvedAttempt → CommitEvaluation → Option ℕ → ProtocolState → ProtocolState
unfolding insert
apply_worktree r ev none state = state
apply_worktree r ev (some revision) state = record state {
  worktrees = insert r.worktree (advanced_worktree r ev revision) state.worktrees;
}

abbrev add_key : Option EventKey → ProtocolState → ProtocolState
add_key none state = state
add_key (some key) state = record state { processed_events = set_insert key state.processed_events }

unfoldable pub apply_event_key : ResolvedAttempt → ProtocolState → ProtocolState
unfolding set_insert
apply_event_key r state =
    if is_hook r.boundary then add_key (boundary_event_key r.boundary) state else state

-- the event that `r` emits in `state`, the state before the commit
unfoldable pub mutation_event : ResolvedAttempt → ProtocolState → ℕ → MutationEvent
mutation_event r state revision = record {
  worktree_id = r.worktree;
  revision = revision;
  before_tree = r.planned.before_tree;
  after_tree = r.planned.after_tree;
  active_scopes = live_scopes_on state r.worktree;
  tainted = r.worktree_state.tainted;
  failure_kind = r.worktree_state.failure_kind;
  attribution = attribution_for_boundary state r.worktree r.boundary;
  boundary = r.boundary;
}

-- the `expect` on the advanced revision
unfoldable pub apply_mutation_event :
    ResolvedAttempt
    → CommitEvaluation
    → Option ℕ
    → ProtocolState
    → ProtocolState
    → Option ProtocolState
unfolding set_insert
apply_mutation_event r ev advanced before next =
    if ev.changed
    then (do
      revision ← advanced
      some (record next {
        mutation_events = set_insert (mutation_event r before revision) next.mutation_events;
      }))
    else some next

-- `Some(next_revision(…).expect(…))`, or `None`
unfoldable pub advanced_revision : ResolvedAttempt → CommitEvaluation → Option (Option ℕ)
advanced_revision r ev =
    if ev.advances_revision
    then (do revision ← next_revision r.worktree_state.revision; some (some revision))
    else some none

unfoldable pub apply :
    ResolvedAttempt → ProtocolState → AttemptId → CommitEvaluation → Option ProtocolState
unfolding modify
apply r state attempt ev =
    if not ev.accepted
    then some (record state { attempts = modify attempt reject_prepared state.attempts })
    else (do
      advanced ← advanced_revision r ev
      next ←
          apply_mutation_event r ev advanced state
            (apply_event_key r (apply_worktree r ev advanced (apply_scope r ev state)))
      some (record next { attempts = modify attempt set_committed next.attempts }))

unfoldable pub commit : ProtocolState → AttemptId → Option CommitOutcome
commit state attempt = elim (resolve state attempt) [
  | none ↦ some (record { evaluation = no_evaluation; state = state })
  | some r ↦
      let ev = evaluate r state in
      (do next ← apply r state attempt ev; some (record { evaluation = ev; state = next }))
]
