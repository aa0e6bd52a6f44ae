-- ===== src/MutationTrace/Protocol/Exclusive.antt =====
-- When a change is attributed to one scope alone.
use shared_context_engineeri.Common.{
  ◌≡◌, ◌↔◌, ◌⊎◌, ◌∙◌, Bool, true, false, not, List, [], ◌∷◌, lookup, contains, contains-keys_where,
  keys_where-IsDistinct, singleton_of_contains, IsUnique, ◌==◌, ◌&&◌, is_some_and, arith,
}
use shared_context_engineeri.MutationTrace.Types.{
  WorktreeId, ScopeId, EventId, healthy, ai_exclusive, Boundary, close, ProtocolState,
}
use shared_context_engineeri.MutationTrace.Equality.{worktree_id_eq, scope_id_eq, failure_kind_eq}
use shared_context_engineeri.MutationTrace.Boundary.{is_close, boundary_scope}
use shared_context_engineeri.MutationTrace.Protocol.{
  by_count, live_on, live_scopes_on, attribution_for, attribution_for_boundary,
  scope_requires_confirmation, boundary_confirms_scope, has_unconfirmed_required_scope,
  boundary_closes_never_seen_scope,
}

-- The scope belongs to the worktree and is active.
abbrev pub is_live_on : ProtocolState → WorktreeId → ScopeId → Bool
is_live_on s worktree scope = is_some_and (live_on worktree) (lookup scope s.scopes)

-- The worktree is known, healthy, needs no rebaseline, and is not externally tainted.
abbrev pub is_eligible : ProtocolState → WorktreeId → Bool
is_eligible s worktree =
    is_some_and (λ w. w.failure_kind == healthy && not w.needs_rebaseline)
      (lookup worktree s.worktrees)
    && not (contains worktree s.external_taint)

pub contains-live_scopes_on :
    (s : ProtocolState) (worktree : WorktreeId) (scope : ScopeId)
    → IsUnique s.scopes
    → contains scope (live_scopes_on s worktree) ≡ is_live_on s worktree scope
unfolding live_scopes_on
contains-live_scopes_on s worktree scope u = contains-keys_where scope (live_on worktree) s.scopes u

live_scopes_on-eq_singleton :
    (s : ProtocolState) (worktree : WorktreeId) (scope : ScopeId)
    → IsUnique s.scopes
    → ((j : ScopeId) → is_live_on s worktree j ≡ (j == scope))
    → live_scopes_on s worktree ≡ scope ∷ []
unfolding live_scopes_on
live_scopes_on-eq_singleton s worktree scope u h =
    singleton_of_contains scope _ (keys_where-IsDistinct (live_on worktree) s.scopes u)
      (λ j. contains-keys_where j (live_on worktree) s.scopes u ∙ h j)

by_count-exclusive :
    (live : List ScopeId) (scope : ScopeId) → by_count live ≡ ai_exclusive scope → live ≡ scope ∷ []
by_count-exclusive [] scope h = cc
by_count-exclusive (x ∷ []) scope h = ground arith
by_count-exclusive (x ∷ y ∷ rest) scope h = cc

pub attribution_for-exclusive :
    (s : ProtocolState) (worktree : WorktreeId) (scope : ScopeId)
    → attribution_for s worktree ≡ ai_exclusive scope
    → (is_eligible s worktree ≡ true) × (live_scopes_on s worktree ≡ scope ∷ [])
unfolding attribution_for
attribution_for-exclusive s worktree scope h =
    ground (arith, by_count-exclusive (live_scopes_on s worktree) scope)

-- A worktree's changes are attributed to one scope exactly if the worktree is eligible (known,
-- healthy, in no need of a rebaseline, not externally tainted) and that scope is its only live one.
pub attribution_for-exclusive_iff :
    (s : ProtocolState) (worktree : WorktreeId) (scope : ScopeId)
    → IsUnique s.scopes
    → (attribution_for s worktree ≡ ai_exclusive scope)
      ↔ ((is_eligible s worktree ≡ true) × ((j : ScopeId) → is_live_on s worktree j ≡ (j == scope)))
unfolding attribution_for contains
attribution_for-exclusive_iff s worktree scope u = (
  λ h.
      let (eligible, only) = attribution_for-exclusive s worktree scope h in
      (eligible, λ j. ground (arith, contains-live_scopes_on s worktree j u, only)),
  λ h. ground (arith, h.0, live_scopes_on-eq_singleton s worktree scope u h.1),
)

-- A boundary attributes a change to one scope exactly if the worktree's state does, the scope's
-- harness needs no confirmation or the boundary is the close of that very scope, and the boundary
-- is not the close of a scope that was never seen.
pub attribution_for_boundary-exclusive_iff :
    (s : ProtocolState) (worktree : WorktreeId) (b : Boundary) (scope : ScopeId)
    → (attribution_for_boundary s worktree b ≡ ai_exclusive scope) ↔ (
        (attribution_for s worktree ≡ ai_exclusive scope)
        × ((scope_requires_confirmation s scope ≡ false)
            ⊎ ((event : EventId) × (b ≡ close scope event)))
        × (boundary_closes_never_seen_scope s b ≡ false))
unfolding attribution_for_boundary has_unconfirmed_required_scope boundary_confirms_scope is_close
    boundary_scope
attribution_for_boundary-exclusive_iff s worktree b scope = (
  λ h. ground (arith, attribution_for-exclusive s worktree scope),
  λ h. ground (arith, attribution_for-exclusive s worktree scope h.0),
)
