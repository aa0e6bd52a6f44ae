-- ===== src/MutationTrace/Protocol/Replay.antt =====
-- Compare-and-swap and idempotency: which attempts are rejected, and what a rejection leaves.
use shared_context_engineeri.Common.{
  ◌+◌, ◌≡◌, sym, ◌∙◌, true, false, some, List, lookup-insert, arith,
}
use mathlib.Core.Option.{some-injective}
use mathlib.Core.Path.{subst}
use shared_context_engineeri.MutationTrace.Types.{AttemptId, EventKey, ProtocolState}
use shared_context_engineeri.MutationTrace.Equality.{worktree_id_eq, event_key_eq}
use shared_context_engineeri.MutationTrace.Boundary.{boundary_event_key, is_hook}
use shared_context_engineeri.MutationTrace.Protocol.Actions.{Action, run}
use shared_context_engineeri.MutationTrace.Protocol.Commit.{
  CommitOutcome, ResolvedAttempt, resolve, evaluate, is_fresh, is_new_event, advanced_worktree,
  commit,
}
use shared_context_engineeri.MutationTrace.Protocol.Commit.Cases.{commit-eq-outcome}
use shared_context_engineeri.MutationTrace.Protocol.Commit.Fields.{
  resolve-Resolved, contains-apply_event_key,
}
use shared_context_engineeri.MutationTrace.Protocol.Evidence.{commit-eq_of_resolve}
use shared_context_engineeri.MutationTrace.Protocol.WellFormed.{IsWellFormed}
use shared_context_engineeri.MutationTrace.Protocol.WellFormed.Commit.{outcome-IsWellFormed}
use shared_context_engineeri.MutationTrace.Protocol.Runs.{run-Evolves}

pub commit-IsWellFormed :
    (s : ProtocolState) (attempt : AttemptId) (o : CommitOutcome)
    → IsWellFormed s
    → commit s attempt ≡ some o
    → IsWellFormed o.state
commit-IsWellFormed s attempt o w h =
    subst (λ u. IsWellFormed (CommitOutcome.state u))
      (some-injective _ _ (sym (commit-eq-outcome s attempt) ∙ h))
      (outcome-IsWellFormed s attempt w)

key-is_hook :
    (r : ResolvedAttempt) (k : EventKey)
    → boundary_event_key r.boundary ≡ some k
    → is_hook r.boundary ≡ true
unfolding boundary_event_key is_hook
key-is_hook r k h = ground arith

-- Once a hook's event is committed, no attempt with the same event key is accepted, whatever is
-- run in between.
pub commit_once :
    (s t : ProtocolState) (actions : List Action) (first again : AttemptId)
    (r₁ r₂ : ResolvedAttempt) (o₁ o₂ : CommitOutcome) (k : EventKey)
    → IsWellFormed s
    → resolve s first ≡ some r₁
    → boundary_event_key r₁.boundary ≡ some k
    → commit s first ≡ some o₁
    → o₁.evaluation.accepted ≡ true
    → run actions o₁.state ≡ some t
    → resolve t again ≡ some r₂
    → boundary_event_key r₂.boundary ≡ some k
    → commit t again ≡ some o₂
    → o₂.evaluation.accepted ≡ false
unfolding evaluate is_fresh is_new_event
commit_once s t actions first again r₁ r₂ o₁ o₂ k h found₁ key₁ h₁ ok ran found₂ key₂ h₂ =
    let kept =
      (run-Evolves actions o₁.state t (commit-IsWellFormed s first o₁ h h₁) ran).processed k in
    ground (
      arith,
      commit-eq_of_resolve s first r₁ o₁ found₁ h₁,
      commit-eq_of_resolve t again r₂ o₂ found₂ h₂,
      contains-apply_event_key r₁ s k,
      key-is_hook r₁ k key₁,
      key-is_hook r₂ k key₂,
      kept,
    )

-- Of two attempts prepared against the same revision of a worktree, the second one to commit is
-- rejected if the first one advanced the revision, whatever is run in between.
pub commit_stale :
    (s t : ProtocolState) (actions : List Action) (first second : AttemptId)
    (r₁ r₂ : ResolvedAttempt) (o₁ o₂ : CommitOutcome)
    → IsWellFormed s
    → resolve s first ≡ some r₁
    → commit s first ≡ some o₁
    → o₁.evaluation.advances_revision ≡ true
    → run actions o₁.state ≡ some t
    → resolve t second ≡ some r₂
    → r₂.worktree ≡ r₁.worktree
    → r₂.planned.expected_revision ≡ r₁.planned.expected_revision
    → commit t second ≡ some o₂
    → o₂.evaluation.accepted ≡ false
unfolding evaluate is_fresh
commit_stale s t actions first second r₁ r₂ o₁ o₂ h found₁ h₁ ok ran found₂ same expected h₂ =
    let w' = advanced_worktree r₁ (evaluate r₁ s) (r₁.worktree_state.revision + 1) in
    ground (
      arith,
      commit-eq_of_resolve s first r₁ o₁ found₁ h₁,
      commit-eq_of_resolve t second r₂ o₂ found₂ h₂,
      lookup-insert r₁.worktree r₁.worktree w' s.worktrees,
      (resolve-Resolved t second r₂ found₂).worktree_state_eq,
      (run-Evolves actions o₁.state t (commit-IsWellFormed s first o₁ h h₁) ran).worktrees
          r₁.worktree,
    )
