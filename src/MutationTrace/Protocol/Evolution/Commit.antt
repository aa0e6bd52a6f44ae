-- ===== src/MutationTrace/Protocol/Evolution/Commit.antt =====
-- `commit` moves the state forward.
use shared_context_engineeri.Common.{
  ◌+◌, inl, inr, lookup, lookup-insert, contains-set_insert, Option-cases, arith,
}
use shared_context_engineeri.MutationTrace.Types.{ScopeId, AttemptId, ProtocolState}
use shared_context_engineeri.MutationTrace.Equality.{worktree_id_eq, scope_id_eq, mutation_event_eq}
use shared_context_engineeri.MutationTrace.Boundary.{is_start, is_close, is_advance}
use shared_context_engineeri.MutationTrace.Protocol.Commit.{
  ResolvedAttempt, resolve, evaluate, observes_scope, apply_scope, advanced_worktree,
  mutation_event,
}
use shared_context_engineeri.MutationTrace.Protocol.Commit.Cases.{
  accepted_state, rejected_state, outcome_of, outcome_rule,
}
use shared_context_engineeri.MutationTrace.Protocol.Commit.Fields.{
  Resolved, resolve-Resolved, lookup-apply_scope, contains-apply_event_key,
}
use shared_context_engineeri.MutationTrace.Protocol.Evolution.{
  Evolves, Evolves-refl, WorktreeLe-refl, ScopeLe, ScopeLe-refl,
}

-- `evaluate` lets a boundary act on a scope only if the transition is one of its lifecycle.
after_transition-ScopeLe :
    (s : ProtocolState) (r : ResolvedAttempt) (j : ScopeId)
    → ScopeLe (lookup j s.scopes) (lookup j (apply_scope r (evaluate r s) s).scopes)
unfolding evaluate observes_scope is_start is_close is_advance
after_transition-ScopeLe s r j = elim (Option-cases r.scope_id) [
  | inl e ↦
      ground (arith, lookup-apply_scope r (evaluate r s) s j, ScopeLe-refl (lookup j s.scopes))
  | inr (scope, e) ↦
      ground (arith, lookup-apply_scope r (evaluate r s) s j, ScopeLe-refl (lookup j s.scopes))
]

pub accepted-Evolves :
    (s : ProtocolState) (attempt : AttemptId) (r : ResolvedAttempt)
    → Resolved s attempt r
    → Evolves s (accepted_state r (evaluate r s) attempt s)
accepted-Evolves s attempt r found = record {
  worktrees = λ v.
      let revision = r.worktree_state.revision + 1 in
      ground (
        arith,
        found.worktree_state_eq,
        lookup-insert r.worktree v (advanced_worktree r (evaluate r s) revision) s.worktrees,
        WorktreeLe-refl (lookup v s.worktrees),
      );
  scopes = λ j. after_transition-ScopeLe s r j;
  processed = λ k h. ground (arith, contains-apply_event_key r s k);
  evidence = λ e h.
      let revision = r.worktree_state.revision + 1 in
      ground (arith, contains-set_insert (mutation_event r s revision) e s.mutation_events);
}

pub rejected-Evolves :
    (s : ProtocolState) (attempt : AttemptId) → Evolves s (rejected_state attempt s)
rejected-Evolves s attempt = record {
  worktrees = λ v. WorktreeLe-refl _;
  scopes = λ j. ScopeLe-refl _;
  processed = λ k h. h;
  evidence = λ e h. h;
}

pub outcome-Evolves :
    (s : ProtocolState) (attempt : AttemptId)
    → Evolves s (outcome_of s attempt (resolve s attempt)).state
outcome-Evolves s attempt =
    outcome_rule (Evolves s) s attempt (Evolves-refl s)
      (λ r e _. accepted-Evolves s attempt r (resolve-Resolved s attempt r e))
      (rejected-Evolves s attempt)
