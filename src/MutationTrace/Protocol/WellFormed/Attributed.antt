-- ===== src/MutationTrace/Protocol/WellFormed/Attributed.antt =====
-- What an attribution says of the state that it is read from.
use shared_context_engineeri.Common.{◌≡◌, false, some, List, [], ◌∷◌, lookup, arith}
use shared_context_engineeri.MutationTrace.Types.{
  WorktreeId, ScopeId, Boundary, WorktreeState, ProtocolState,
}
use shared_context_engineeri.MutationTrace.Equality.{worktree_id_eq}
use shared_context_engineeri.MutationTrace.Protocol.{
  by_count, is_unhealthy, live_scopes_on, attribution_for, attribution_for_boundary,
}
use shared_context_engineeri.MutationTrace.Protocol.WellFormed.{IsAttributed}

by_count-IsAttributed :
    (live : List ScopeId) (w : WorktreeState)
    → is_unhealthy w ≡ false
    → IsAttributed (by_count live) live w.failure_kind
by_count-IsAttributed [] w h = tt
by_count-IsAttributed (s ∷ []) w h = ground arith
by_count-IsAttributed (s ∷ t ∷ rest) w h = (omega arith, ground arith)

attribution_for-IsAttributed :
    (s : ProtocolState) (worktree : WorktreeId) (w : WorktreeState)
    → lookup worktree s.worktrees ≡ some w
    → IsAttributed (attribution_for s worktree) (live_scopes_on s worktree) w.failure_kind
unfolding attribution_for
attribution_for-IsAttributed s worktree w e =
    ground (arith, by_count-IsAttributed (live_scopes_on s worktree) w)

pub attribution_for_boundary-IsAttributed :
    (s : ProtocolState) (worktree : WorktreeId) (b : Boundary) (w : WorktreeState)
    → lookup worktree s.worktrees ≡ some w
    → IsAttributed
        (attribution_for_boundary s worktree b)
        (live_scopes_on s worktree)
        w.failure_kind
unfolding attribution_for_boundary
attribution_for_boundary-IsAttributed s worktree b w e =
    ground (arith, attribution_for-IsAttributed s worktree w e)
