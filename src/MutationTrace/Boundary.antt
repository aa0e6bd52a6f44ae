-- ===== src/MutationTrace/Boundary.antt =====
-- cli/src/services/mutation_trace/types.rs: the accessors of a scope and of a boundary.
use mathlib.Core.Option
use shared_context_engineeri.Common.{Bool, true, false, not, Option, none, some, List, lookup, ◌==◌}
use shared_context_engineeri.MutationTrace.Types.{
  WorktreeId, ScopeId, EventId, EventKey, ScopeStatus, active, Boundary, start, advance, close,
  flush, ScopeState,
}
use shared_context_engineeri.MutationTrace.Equality.{scope_id_eq, scope_status_eq}

abbrev pub is_live : ScopeStatus → Bool
is_live status = status == active

-- the method `ScopeState::is_live`
abbrev pub is_live_scope : ScopeState → Bool
is_live_scope s = is_live s.status

abbrev pub scope_worktree : ScopeState → WorktreeId
scope_worktree s = s.worktree_id

unfoldable pub boundary_worktree : Boundary → List (ScopeId × ScopeState) → Option WorktreeId
unfolding lookup
boundary_worktree (flush worktree) scopes = some worktree
boundary_worktree (start scope _) scopes = Option.map scope_worktree (lookup scope scopes)
boundary_worktree (advance scope _) scopes = Option.map scope_worktree (lookup scope scopes)
boundary_worktree (close scope _) scopes = Option.map scope_worktree (lookup scope scopes)

unfoldable pub boundary_scope : Boundary → Option ScopeId
boundary_scope (start scope _) = some scope
boundary_scope (advance scope _) = some scope
boundary_scope (close scope _) = some scope
boundary_scope (flush _) = none

unfoldable pub boundary_event : Boundary → Option EventId
boundary_event (start _ event) = some event
boundary_event (advance _ event) = some event
boundary_event (close _ event) = some event
boundary_event (flush _) = none

abbrev key_of : Option ScopeId → Option EventId → Option EventKey
key_of (some scope) (some event) = some (record { scope_id = scope; event_id = event })
key_of _ _ = none

unfoldable pub boundary_event_key : Boundary → Option EventKey
unfolding boundary_scope boundary_event
boundary_event_key b = key_of (boundary_scope b) (boundary_event b)

unfoldable pub is_start : Boundary → Bool
is_start (start _ _) = true
is_start _ = false

unfoldable pub is_advance : Boundary → Bool
is_advance (advance _ _) = true
is_advance _ = false

unfoldable pub is_close : Boundary → Bool
is_close (close _ _) = true
is_close _ = false

unfoldable pub is_flush : Boundary → Bool
is_flush (flush _) = true
is_flush _ = false

unfoldable pub is_hook : Boundary → Bool
unfolding is_flush
is_hook b = not (is_flush b)
