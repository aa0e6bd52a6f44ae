-- ===== src/MutationTrace/Protocol/Actions.antt =====
-- The actions of the protocol, and their runs: any interleaving of the calls of
-- cli/src/services/mutation_trace/protocol.rs by the hooks and by recovery.
use shared_context_engineeri.Common.{Option, some, List, [], ◌∷◌, ◌>>=◌}
use mathlib.Core.Option
use shared_context_engineeri.MutationTrace.Types.{
  WorktreeId, ScopeId, TreeId, AttemptId, Boundary, ProtocolState,
}
use shared_context_engineeri.MutationTrace.Protocol.{prepare}
use shared_context_engineeri.MutationTrace.Protocol.Commit.{CommitOutcome, commit}
use shared_context_engineeri.MutationTrace.Protocol.Recovery.{
  taint, database_failure, abandon, recover,
}

pub data Action : Type 0 where
  prepare_attempt : AttemptId → Boundary → TreeId → Action
  commit_attempt : AttemptId → Action
  taint_worktree : WorktreeId → Action
  fail_database : WorktreeId → Action
  abandon_scope : ScopeId → Action
  recover_worktree : WorktreeId → TreeId → Action

-- `none` is a panic
unfoldable pub perform : Action → ProtocolState → Option ProtocolState
perform (prepare_attempt attempt b tree) state = some (prepare state attempt b tree)
perform (commit_attempt attempt) state =
    Option.map (λ o. CommitOutcome.state o) (commit state attempt)
perform (taint_worktree worktree) state = some (taint state worktree)
perform (fail_database worktree) state = some (database_failure state worktree)
perform (abandon_scope scope) state = some (abandon state scope)
perform (recover_worktree worktree tree) state = some (recover state worktree tree)

unfoldable pub run : List Action → ProtocolState → Option ProtocolState
run [] state = some state
run (a ∷ actions) state = perform a state >>= run actions
