-- ===== src/MutationTrace/Protocol/Tests.antt =====
-- The protocol on the small state of Protocol/Sample.
use shared_context_engineeri.Common.{
  List, ◌≡◌, ◌<◌, ◌↔◌, ◌⊎◌, refl, true, false, some, [], ◌∷◌, contains, ◌==◌,
}
use shared_context_engineeri.MutationTrace.Types.{
  ScopeId, EventId, ai_exclusive, close, start, Boundary, ProtocolState,
}
use shared_context_engineeri.MutationTrace.Equality.{
  worktree_id_eq, scope_id_eq, event_key_eq, mutation_event_eq,
}
use shared_context_engineeri.MutationTrace.Protocol.{
  u64_max, attribution_for, scope_requires_confirmation, boundary_closes_never_seen_scope,
  attribution_for_boundary, prepare,
}
use shared_context_engineeri.MutationTrace.Protocol.Commit.{CommitOutcome, resolve}
use shared_context_engineeri.MutationTrace.Protocol.Commit.Cases.{outcome_of}
use shared_context_engineeri.MutationTrace.Boundary.{is_flush}
use shared_context_engineeri.MutationTrace.Protocol.Actions.{commit_attempt, run}
use shared_context_engineeri.MutationTrace.Protocol.Evolution.{Evolves}
use shared_context_engineeri.MutationTrace.Protocol.Ledger.{
  Ledger, Move, move_all, AllAllowed, Agrees,
}
use shared_context_engineeri.MutationTrace.Protocol.Refinement.{run-refines_ledger}
use shared_context_engineeri.MutationTrace.Protocol.Replay.{commit_once, commit_stale}
use shared_context_engineeri.MutationTrace.Protocol.Evidence.{commit-prepare-accepted_iff}
use shared_context_engineeri.MutationTrace.Protocol.Exclusive.{
  is_live_on, is_eligible, attribution_for-exclusive_iff, attribution_for_boundary-exclusive_iff,
}
use shared_context_engineeri.MutationTrace.Protocol.Quarantine.{is_waiting, waiting-no_evidence}
use shared_context_engineeri.MutationTrace.Protocol.WellFormed.{IsWellFormed}
use shared_context_engineeri.MutationTrace.Protocol.Runs.{performed, run-IsWellFormed, run-Evolves}
use shared_context_engineeri.MutationTrace.Protocol.Sample.{
  machinery, wt, codex_scope, claude_scope, tree, event, attempt, tree₀, sample,
  sample-IsWellFormed, closing, closing_outcome, closing_attempt, event₁, closing_resolves,
  closing_commits, after_start, start_rejected, again_attempt, again_outcome, again_resolves,
  again_commits,
}

run-IsWellFormed_example : (t : ProtocolState) × (run closing sample ≡ some t) × IsWellFormed t
run-IsWellFormed_example = run-IsWellFormed closing sample sample-IsWellFormed

closing_runs : run closing sample ≡ some after_start
unfolding machinery
closing_runs = refl

run-Evolves_example : Evolves sample after_start
run-Evolves_example = run-Evolves closing sample after_start sample-IsWellFormed closing_runs

commit_once_example : again_outcome.evaluation.accepted ≡ false
unfolding machinery
commit_once_example =
    commit_once sample after_start (commit_attempt (attempt "start") ∷ []) (attempt "close")
      (attempt "again") closing_attempt again_attempt closing_outcome again_outcome
      (record { scope_id = codex_scope; event_id = event "e1" }) sample-IsWellFormed
      closing_resolves refl closing_commits refl start_rejected again_resolves refl again_commits

commit_stale_example : again_outcome.evaluation.accepted ≡ false
unfolding machinery
commit_stale_example =
    commit_stale sample after_start (commit_attempt (attempt "start") ∷ []) (attempt "close")
      (attempt "again") closing_attempt again_attempt closing_outcome again_outcome
      sample-IsWellFormed closing_resolves closing_commits refl start_rejected again_resolves refl
      refl again_commits

-- a start with a new event, prepared on the small state and committed
abbrev starting : Boundary
starting = start claude_scope (event "e9")

abbrev after_prepare : ProtocolState
unfolding machinery
after_prepare = prepare sample (attempt "fresh") starting (tree "t4")

abbrev fresh_outcome : CommitOutcome
unfolding machinery
fresh_outcome = outcome_of after_prepare (attempt "fresh") (resolve after_prepare (attempt "fresh"))

commit-prepare-accepted_iff_example : (fresh_outcome.evaluation.accepted ≡ true) ↔ (
    (contains wt sample.external_taint ≡ false)
    × (contains (record { scope_id = claude_scope; event_id = event "e9" }) sample.processed_events
        ≡ false)
    × ((0 < u64_max) ⊎ (is_flush starting ≡ true) × (tree "t0" ≡ tree "t4")))
unfolding machinery after_prepare fresh_outcome
commit-prepare-accepted_iff_example =
    commit-prepare-accepted_iff sample (attempt "fresh") starting (tree "t4") wt tree₀ fresh_outcome
      refl refl refl

abbrev tainted_sample : ProtocolState
tainted_sample = record sample { external_taint = wt ∷ [] }

abbrev after_waiting : ProtocolState
unfolding machinery
after_waiting = performed (commit_attempt (attempt "close")) tainted_sample

waiting-no_evidence_example :
    (is_waiting wt after_waiting ≡ true) × (contains event₁ after_waiting.mutation_events ≡ false)
unfolding machinery
waiting-no_evidence_example =
    waiting-no_evidence wt (commit_attempt (attempt "close") ∷ []) tainted_sample after_waiting
      event₁ (tt, tt) refl refl refl

attribution_for-exclusive_iff_example : (attribution_for sample wt ≡ ai_exclusive codex_scope) ↔ (
    (is_eligible sample wt ≡ true) × ((j : ScopeId) → is_live_on sample wt j ≡ (j == codex_scope)))
attribution_for-exclusive_iff_example =
    attribution_for-exclusive_iff sample wt codex_scope sample-IsWellFormed.unique_scopes

attribution_for_boundary-exclusive_iff_example :
    (attribution_for_boundary sample wt closing_attempt.boundary ≡ ai_exclusive codex_scope) ↔ (
      (attribution_for sample wt ≡ ai_exclusive codex_scope)
      × ((scope_requires_confirmation sample codex_scope ≡ false)
          ⊎ ((e : EventId) × (closing_attempt.boundary ≡ close codex_scope e)))
      × (boundary_closes_never_seen_scope sample closing_attempt.boundary ≡ false))
attribution_for_boundary-exclusive_iff_example =
    attribution_for_boundary-exclusive_iff sample wt closing_attempt.boundary codex_scope

abbrev ledger : Ledger
ledger = record {
  tree = tree₀.cursor_tree;
  revision = tree₀.revision;
  waiting = tree₀.needs_rebaseline;
  has_event = λ e. contains e sample.mutation_events;
}

run-refines_ledger_example :
    (moves : List Move) × AllAllowed wt moves ledger × Agrees wt after_start (move_all moves ledger)
unfolding machinery
run-refines_ledger_example =
    run-refines_ledger wt closing sample after_start ledger
      (record {
        state = tree₀;
        found = refl;
        tree_eq = refl;
        revision_eq = refl;
        waiting_eq = refl;
        events_eq = λ e p. refl;
      })
      closing_runs
