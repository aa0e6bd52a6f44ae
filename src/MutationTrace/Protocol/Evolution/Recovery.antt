-- ===== src/MutationTrace/Protocol/Evolution/Recovery.antt =====
-- `prepare`, `taint`, `database_failure`, `abandon` and `recover` move the state forward.
use shared_context_engineeri.Common.{◌+◌, inl, inr, lookup, lookup-insert, IsUnique, arith}
use shared_context_engineeri.MutationTrace.Types.{
  WorktreeId, ScopeId, TreeId, AttemptId, Boundary, ProtocolState,
}
use shared_context_engineeri.MutationTrace.Equality.{worktree_id_eq, scope_id_eq}
use shared_context_engineeri.MutationTrace.Protocol.{prepare}
use shared_context_engineeri.MutationTrace.Protocol.Recovery.{
  tainted_worktree, rebaseline_worktree, abandoned_scope, baseline, taint, database_failure,
  abandon, recover,
}
use shared_context_engineeri.MutationTrace.Protocol.Recovery.Cases.{
  taint_cases, abandon_cases, recover_cases,
}
use shared_context_engineeri.MutationTrace.Protocol.Recovery.Scopes.{lookup-abandon_live_on}
use shared_context_engineeri.MutationTrace.Protocol.Evolution.{
  Evolves, Evolves-refl, WorktreeLe-refl, ScopeLe-refl,
}

pub prepare-Evolves :
    (s : ProtocolState) (attempt : AttemptId) (b : Boundary) (tree : TreeId)
    → Evolves s (prepare s attempt b tree)
unfolding prepare
prepare-Evolves s attempt b tree = record {
  worktrees = λ v. ground (arith, WorktreeLe-refl (lookup v s.worktrees));
  scopes = λ j. ground (arith, ScopeLe-refl (lookup j s.scopes));
  processed = λ k h. ground arith;
  evidence = λ e h. ground arith;
}

pub taint-Evolves : (s : ProtocolState) (worktree : WorktreeId) → Evolves s (taint s worktree)
taint-Evolves s worktree = elim (taint_cases s worktree) [
  | inl e ↦ rw e (Evolves-refl s)
  | inr (w, c) ↦ rw c.result (record {
    worktrees = λ v. ground (
      arith,
      c.found,
      lookup-insert worktree v (tainted_worktree w (w.revision + 1)) s.worktrees,
      WorktreeLe-refl (lookup v s.worktrees),
    );
    scopes = λ j. ScopeLe-refl _;
    processed = λ k h. h;
    evidence = λ e h. h;
  })
]

pub database_failure-Evolves :
    (s : ProtocolState) (worktree : WorktreeId) → Evolves s (database_failure s worktree)
unfolding database_failure
database_failure-Evolves s worktree = record {
  worktrees = λ v. ground (arith, WorktreeLe-refl (lookup v s.worktrees));
  scopes = λ j. ground (arith, ScopeLe-refl (lookup j s.scopes));
  processed = λ k h. ground arith;
  evidence = λ e h. ground arith;
}

pub abandon-Evolves : (s : ProtocolState) (scope : ScopeId) → Evolves s (abandon s scope)
abandon-Evolves s scope = elim (abandon_cases s scope) [
  | inl e ↦ rw e (Evolves-refl s)
  | inr (k, w, c) ↦ rw c.result (record {
    worktrees = λ v. ground (
      arith,
      c.found_worktree,
      lookup-insert k.worktree_id v (rebaseline_worktree w (w.revision + 1)) s.worktrees,
      WorktreeLe-refl (lookup v s.worktrees),
    );
    scopes = λ j. ground (
      arith,
      c.found,
      c.live,
      lookup-insert scope j (abandoned_scope k) s.scopes,
      ScopeLe-refl (lookup j s.scopes),
    );
    processed = λ k h. h;
    evidence = λ e h. h;
  })
]

pub recover-Evolves :
    (s : ProtocolState) (worktree : WorktreeId) (tree : TreeId)
    → IsUnique s.scopes
    → Evolves s (recover s worktree tree)
recover-Evolves s worktree tree u = elim (recover_cases s worktree tree) [
  | inl e ↦ rw e (Evolves-refl s)
  | inr (w, c) ↦ rw c.result (record {
    worktrees = λ v. ground (
      arith,
      c.found,
      lookup-insert worktree v (baseline tree (w.revision + 1)) s.worktrees,
      WorktreeLe-refl (lookup v s.worktrees),
    );
    scopes = λ j. ground (
      arith,
      lookup-abandon_live_on worktree j s.scopes s.scopes u,
      ScopeLe-refl (lookup j s.scopes),
    );
    processed = λ k h. h;
    evidence = λ e h. h;
  })
]
