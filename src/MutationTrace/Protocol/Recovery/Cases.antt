-- ===== src/MutationTrace/Protocol/Recovery/Cases.antt =====
-- What `taint`, `abandon` and `recover` return: the state as it was, or one explicit new state.
use shared_context_engineeri.Common.{
  ◌+◌, ◌<◌, ◌≡◌, ◌⊎◌, true, false, some, lookup, insert, contains, set_remove, if◌then◌else◌, ◌||◌,
  arith,
}
use shared_context_engineeri.MutationTrace.Types.{
  WorktreeId, ScopeId, TreeId, healthy, active, WorktreeState, ScopeState, ProtocolState,
}
use shared_context_engineeri.MutationTrace.Equality.{worktree_id_eq, scope_id_eq}
use shared_context_engineeri.MutationTrace.Protocol.{u64_max, next_revision}
use shared_context_engineeri.MutationTrace.Protocol.Recovery.{
  tainted_worktree, taint, rebaseline_worktree, abandoned_scope, abandon, baseline,
  abandons_live_scopes, abandon_live_on, recover,
}

-- `taint` at a worktree whose state is `w`, where it acts
pub record Taints (s : ProtocolState) (worktree : WorktreeId) (w : WorktreeState) : Type 0 where
  pub found : lookup worktree s.worktrees ≡ some w
  pub was_healthy : w.failure_kind ≡ healthy
  pub untainted : contains worktree s.external_taint ≡ false
  pub headroom : w.revision < u64_max
  pub result :
      taint s worktree
      ≡ record s { worktrees = insert worktree (tainted_worktree w (w.revision + 1)) s.worktrees }

pub taint_cases :
    (s : ProtocolState) (worktree : WorktreeId)
    → (taint s worktree ≡ s) ⊎ ((w : WorktreeState) × Taints s worktree w)
unfolding taint next_revision
taint_cases s worktree = ground arith

-- `abandon` of a scope whose state is `k`, on a worktree whose state is `w`, where it acts
pub record Abandons (s : ProtocolState) (scope : ScopeId) (k : ScopeState) (w : WorktreeState)
    : Type 0 where
  pub found : lookup scope s.scopes ≡ some k
  pub live : k.status ≡ active
  pub found_worktree : lookup k.worktree_id s.worktrees ≡ some w
  pub untainted : contains k.worktree_id s.external_taint ≡ false
  pub headroom : w.revision < u64_max
  pub result : abandon s scope ≡ record s {
    worktrees = insert k.worktree_id (rebaseline_worktree w (w.revision + 1)) s.worktrees;
    scopes = insert scope (abandoned_scope k) s.scopes;
  }

pub abandon_cases :
    (s : ProtocolState) (scope : ScopeId)
    → (abandon s scope ≡ s) ⊎ ((k : ScopeState) × (w : WorktreeState) × Abandons s scope k w)
unfolding abandon next_revision
abandon_cases s scope = ground arith

-- `recover` of a worktree whose state is `w`, where it acts
pub record Recovers (s : ProtocolState) (worktree : WorktreeId) (tree : TreeId) (w : WorktreeState)
    : Type 0 where
  pub found : lookup worktree s.worktrees ≡ some w
  pub needed : (abandons_live_scopes s worktree w || w.needs_rebaseline) ≡ true
  pub headroom : w.revision < u64_max
  pub result : recover s worktree tree ≡ record s {
    worktrees = insert worktree (baseline tree (w.revision + 1)) s.worktrees;
    external_taint = set_remove worktree s.external_taint;
    scopes =
        if abandons_live_scopes s worktree w
        then abandon_live_on worktree s.scopes s.scopes
        else s.scopes;
  }

pub recover_cases :
    (s : ProtocolState) (worktree : WorktreeId) (tree : TreeId)
    → (recover s worktree tree ≡ s) ⊎ ((w : WorktreeState) × Recovers s worktree tree w)
unfolding recover next_revision
recover_cases s worktree tree = ground arith
