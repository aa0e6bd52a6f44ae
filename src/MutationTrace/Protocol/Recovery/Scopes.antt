-- ===== src/MutationTrace/Protocol/Recovery/Scopes.antt =====
-- The loop of `recover` over the scopes, read as a map: exactly the live scopes of the worktree are
-- abandoned.
use shared_context_engineeri.Common.{
  ◌≡◌, refl, Option, none, some, List, [], ◌∷◌, lookup, insert, lookup-insert, IsUnique,
  insert-IsUnique, if◌then◌else◌, arith,
}
use shared_context_engineeri.MutationTrace.Types.{WorktreeId, ScopeId, ScopeState}
use shared_context_engineeri.MutationTrace.Equality.{scope_id_eq}
use shared_context_engineeri.MutationTrace.Protocol.{live_on}
use shared_context_engineeri.MutationTrace.Protocol.Recovery.{abandoned_scope, abandon_live_on}

-- one scope after the loop, from its entry in the map that the loop reads
abbrev pub after_loop : WorktreeId → Option ScopeState → Option ScopeState → Option ScopeState
after_loop worktree none other = other
after_loop worktree (some s) other = if live_on worktree s then some (abandoned_scope s) else other

pub lookup-abandon_live_on :
    (worktree : WorktreeId) (j : ScopeId) (entries scopes : List (ScopeId × ScopeState))
    → IsUnique entries
    → lookup j (abandon_live_on worktree entries scopes)
      ≡ after_loop worktree (lookup j entries) (lookup j scopes)
unfolding lookup abandon_live_on
lookup-abandon_live_on worktree j [] scopes u = refl
lookup-abandon_live_on worktree j ((scope, s) ∷ rest) scopes u = ground (
  arith,
  lookup-abandon_live_on worktree j rest
      (if live_on worktree s then insert scope (abandoned_scope s) scopes else scopes) u.1,
  u.0,
  lookup-insert scope j (abandoned_scope s) scopes,
)

pub abandon_live_on-IsUnique :
    (worktree : WorktreeId) (entries scopes : List (ScopeId × ScopeState))
    → IsUnique scopes
    → IsUnique (abandon_live_on worktree entries scopes)
unfolding abandon_live_on
abandon_live_on-IsUnique worktree [] scopes u = u
abandon_live_on-IsUnique worktree ((scope, s) ∷ rest) scopes u =
    abandon_live_on-IsUnique worktree rest
      (if live_on worktree s then insert scope (abandoned_scope s) scopes else scopes)
      (ground (arith, insert-IsUnique scope (abandoned_scope s) scopes u))
