-- ===== src/MutationTrace/Protocol/Runs.antt =====
-- What holds across every sequence of actions.
use shared_context_engineeri.Common.{◌≡◌, refl, some, List, [], ◌∷◌, IsUnique}
use mathlib.Core.Option.{some-injective}
use mathlib.Core.Path.{subst}
use shared_context_engineeri.MutationTrace.Equality.{scope_id_eq}
use shared_context_engineeri.MutationTrace.Types.{ProtocolState}
use shared_context_engineeri.MutationTrace.Protocol.Actions.{
  Action, prepare_attempt, commit_attempt, taint_worktree, fail_database, abandon_scope,
  recover_worktree, perform, run,
}
use shared_context_engineeri.MutationTrace.Protocol.Commit.{resolve}
use shared_context_engineeri.MutationTrace.Protocol.Commit.Cases.{outcome_of, commit-eq-outcome}
use shared_context_engineeri.MutationTrace.Protocol.Evolution.{Evolves, Evolves-refl, Evolves-trans}
use shared_context_engineeri.MutationTrace.Protocol.Evolution.Recovery.{
  prepare-Evolves, taint-Evolves, database_failure-Evolves, abandon-Evolves, recover-Evolves,
}
use shared_context_engineeri.MutationTrace.Protocol.Evolution.Commit.{outcome-Evolves}
use shared_context_engineeri.MutationTrace.Protocol.WellFormed.{IsWellFormed}
use shared_context_engineeri.MutationTrace.Protocol.WellFormed.Recovery.{
  prepare-IsWellFormed, taint-IsWellFormed, database_failure-IsWellFormed, abandon-IsWellFormed,
  recover-IsWellFormed,
}
use shared_context_engineeri.MutationTrace.Protocol.WellFormed.Commit.{outcome-IsWellFormed}
use shared_context_engineeri.MutationTrace.Protocol.Recovery.{
  taint, database_failure, abandon, recover,
}
use shared_context_engineeri.MutationTrace.Protocol.{prepare}

-- an action as a total function
abbrev pub performed : Action → ProtocolState → ProtocolState
performed (prepare_attempt attempt b tree) s = prepare s attempt b tree
performed (commit_attempt attempt) s = (outcome_of s attempt (resolve s attempt)).state
performed (taint_worktree worktree) s = taint s worktree
performed (fail_database worktree) s = database_failure s worktree
performed (abandon_scope scope) s = abandon s scope
performed (recover_worktree worktree tree) s = recover s worktree tree

pub perform-eq-performed : (a : Action) (s : ProtocolState) → perform a s ≡ some (performed a s)
unfolding perform
perform-eq-performed (commit_attempt attempt) s = rw (commit-eq-outcome s attempt)
perform-eq-performed (prepare_attempt attempt b tree) s = refl
perform-eq-performed (taint_worktree worktree) s = refl
perform-eq-performed (fail_database worktree) s = refl
perform-eq-performed (abandon_scope scope) s = refl
perform-eq-performed (recover_worktree worktree tree) s = refl

pub performed-IsWellFormed :
    (a : Action) (s : ProtocolState) → IsWellFormed s → IsWellFormed (performed a s)
performed-IsWellFormed (prepare_attempt attempt b tree) s h =
    prepare-IsWellFormed s attempt b tree h
performed-IsWellFormed (commit_attempt attempt) s h = outcome-IsWellFormed s attempt h
performed-IsWellFormed (taint_worktree worktree) s h = taint-IsWellFormed s worktree h
performed-IsWellFormed (fail_database worktree) s h = database_failure-IsWellFormed s worktree h
performed-IsWellFormed (abandon_scope scope) s h = abandon-IsWellFormed s scope h
performed-IsWellFormed (recover_worktree worktree tree) s h = recover-IsWellFormed s worktree tree h

pub performed-Evolves :
    (a : Action) (s : ProtocolState) → IsUnique s.scopes → Evolves s (performed a s)
performed-Evolves (prepare_attempt attempt b tree) s u = prepare-Evolves s attempt b tree
performed-Evolves (commit_attempt attempt) s u = outcome-Evolves s attempt
performed-Evolves (taint_worktree worktree) s u = taint-Evolves s worktree
performed-Evolves (fail_database worktree) s u = database_failure-Evolves s worktree
performed-Evolves (abandon_scope scope) s u = abandon-Evolves s scope
performed-Evolves (recover_worktree worktree tree) s u = recover-Evolves s worktree tree u

-- the first action of a run that returns
pub run_first :
    (a : Action) (actions : List Action) (s t : ProtocolState)
    → run (a ∷ actions) s ≡ some t
    → run actions (performed a s) ≡ some t
unfolding run
run_first a actions s t h = rw (perform-eq-performed a s) at h

-- From a well-formed state every sequence of actions returns, with no panic, in a well-formed
-- state: at most one event for a worktree and revision, each event a real change at a revision
-- between 1 and its worktree's, with an attribution that fits its live scopes; `tainted` as
-- `failure_kind` says; no revision past `u64::MAX`; external taint on known worktrees only.
pub run-IsWellFormed :
    (actions : List Action) (s : ProtocolState)
    → IsWellFormed s
    → (t : ProtocolState) × (run actions s ≡ some t) × IsWellFormed t
unfolding run
run-IsWellFormed [] s h = (s, refl, h)
run-IsWellFormed (a ∷ actions) s h =
    rw (perform-eq-performed a s)
      (run-IsWellFormed actions (performed a s) (performed-IsWellFormed a s h))

-- From a well-formed state, whatever actions are run: no revision goes back, no worktree or scope
-- appears or disappears, every scope keeps its actor and its worktree and never leaves a terminal
-- status, and no event key or mutation event is lost.
pub run-Evolves :
    (actions : List Action) (s t : ProtocolState)
    → IsWellFormed s
    → run actions s ≡ some t
    → Evolves s t
unfolding run
run-Evolves [] s t h e = subst (Evolves s) (some-injective _ _ e) (Evolves-refl s)
run-Evolves (a ∷ actions) s t h e =
    Evolves-trans s (performed a s) t (performed-Evolves a s h.unique_scopes) (
      run-Evolves actions (performed a s) t (performed-IsWellFormed a s h)
        (run_first a actions s t e))
