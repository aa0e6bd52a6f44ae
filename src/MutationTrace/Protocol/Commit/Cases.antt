-- ===== src/MutationTrace/Protocol/Commit/Cases.antt =====
-- What `commit` returns: it never panics, and a resolved attempt is rejected or accepted, with an
-- explicit new state in each case.
use shared_context_engineeri.Common.{
  ◌+◌, ◌<◌, ◌≡◌, inl, inr, true, Option, none, some, insert, modify, set_insert, Option-cases,
  if_rule, if◌then◌else◌, arith,
}
use shared_context_engineeri.MutationTrace.Types.{AttemptId, ProtocolState}
use shared_context_engineeri.MutationTrace.Equality.{
  worktree_id_eq, attempt_id_eq, mutation_event_eq,
}
use shared_context_engineeri.MutationTrace.Protocol.{u64_max, next_revision}
use shared_context_engineeri.MutationTrace.Protocol.Commit.{
  CommitEvaluation, no_evaluation, CommitOutcome, ResolvedAttempt, resolve, evaluate,
  reject_prepared, set_committed, apply_scope, advanced_worktree, apply_worktree, apply_event_key,
  mutation_event, apply_mutation_event, advanced_revision, apply, commit,
}

-- the flags of an evaluation, as `apply` relies on them
pub record Flags (r : ResolvedAttempt) (ev : CommitEvaluation) : Type 0 where
  pub changed_advances : ev.changed ≡ true → ev.advances_revision ≡ true
  pub advances_accepted : ev.advances_revision ≡ true → ev.accepted ≡ true
  pub headroom : ev.advances_revision ≡ true → r.worktree_state.revision < u64_max

pub evaluate-Flags : (r : ResolvedAttempt) (s : ProtocolState) → Flags r (evaluate r s)
unfolding evaluate next_revision
evaluate-Flags r s = ground arith

-- the state after an accepted attempt, field by field
abbrev pub accepted_state :
    ResolvedAttempt → CommitEvaluation → AttemptId → ProtocolState → ProtocolState
accepted_state r ev attempt s = record {
  worktrees =
      if ev.advances_revision
      then insert r.worktree (advanced_worktree r ev (r.worktree_state.revision + 1)) s.worktrees
      else s.worktrees;
  scopes = (apply_scope r ev s).scopes;
  external_taint = s.external_taint;
  processed_events = (apply_event_key r s).processed_events;
  attempts = modify attempt set_committed s.attempts;
  mutation_events =
      if ev.changed
      then set_insert (mutation_event r s (r.worktree_state.revision + 1)) s.mutation_events
      else s.mutation_events;
}

abbrev pub rejected_state : AttemptId → ProtocolState → ProtocolState
rejected_state attempt s = record s { attempts = modify attempt reject_prepared s.attempts }

apply_lem :
    (r : ResolvedAttempt) (s : ProtocolState) (attempt : AttemptId) (ev : CommitEvaluation)
    → Flags r ev
    → apply r s attempt ev
      ≡ some (if ev.accepted then accepted_state r ev attempt s else rejected_state attempt s)
unfolding apply advanced_revision apply_mutation_event apply_event_key apply_worktree apply_scope
    next_revision
apply_lem r s attempt ev f = ground arith

-- the outcome of a commit as a total function
abbrev pub outcome_of : ProtocolState → AttemptId → Option ResolvedAttempt → CommitOutcome
outcome_of s attempt none = record { evaluation = no_evaluation; state = s }
outcome_of s attempt (some r) =
    let ev = evaluate r s in
    record {
      evaluation = ev;
      state = if ev.accepted then accepted_state r ev attempt s else rejected_state attempt s;
    }

-- `commit` returns, whatever the state and the attempt.
pub commit-eq-outcome :
    (s : ProtocolState) (attempt : AttemptId)
    → commit s attempt ≡ some (outcome_of s attempt (resolve s attempt))
unfolding commit
commit-eq-outcome s attempt = elim (Option-cases (resolve s attempt)) [
  | inl e ↦ rw (e, commit)
  | inr (r, e) ↦ rw (e, commit) (rw (apply_lem r s attempt (evaluate r s) (evaluate-Flags r s)))
]

-- To prove something of the state after a commit: from its three cases.
pub outcome_rule :
    (P : ProtocolState → Type 0) (s : ProtocolState) (attempt : AttemptId)
    → P s
    → ((r : ResolvedAttempt)
        → resolve s attempt ≡ some r
        → (evaluate r s).accepted ≡ true
        → P (accepted_state r (evaluate r s) attempt s))
    → P (rejected_state attempt s)
    → P (outcome_of s attempt (resolve s attempt)).state
outcome_rule P s attempt idle accepted rejected = elim (Option-cases (resolve s attempt)) [
  | inl e ↦ rw e idle
  | inr (r, e) ↦ rw e (if_rule P (evaluate r s).accepted (accepted r e) (λ _. rejected))
]
