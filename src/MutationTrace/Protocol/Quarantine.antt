-- ===== src/MutationTrace/Protocol/Quarantine.antt =====
-- A worktree that waits for its recovery emits no evidence.
use shared_context_engineeri.Common.{
  ◌+◌, ◌≡◌, ◌≢◌, inl, inr, refl, Bool, true, some, List, [], ◌∷◌, lookup, lookup-insert, contains,
  contains-set_insert, contains-set_remove, ◌||◌, is_some_and, arith, sym, ◌∙◌,
}
use mathlib.Core.Option.{some-injective}
use shared_context_engineeri.MutationTrace.Types.{
  WorktreeId, WorktreeState, MutationEvent, ProtocolState, AttemptId,
}
use shared_context_engineeri.MutationTrace.Equality.{worktree_id_eq, mutation_event_eq}
use shared_context_engineeri.MutationTrace.Protocol.{prepare}
use shared_context_engineeri.MutationTrace.Protocol.Actions.{
  Action, prepare_attempt, commit_attempt, taint_worktree, fail_database, abandon_scope,
  recover_worktree, run,
}
use shared_context_engineeri.MutationTrace.Protocol.Commit.{
  ResolvedAttempt, evaluate, is_fresh, advanced_worktree, mutation_event,
}
use shared_context_engineeri.MutationTrace.Protocol.Commit.Cases.{accepted_state, outcome_rule}
use shared_context_engineeri.MutationTrace.Protocol.Commit.Fields.{Resolved, resolve-Resolved}
use shared_context_engineeri.MutationTrace.Protocol.Recovery.{
  tainted_worktree, rebaseline_worktree, baseline, database_failure,
}
use shared_context_engineeri.MutationTrace.Protocol.Recovery.Cases.{
  taint_cases, abandon_cases, recover_cases,
}
use shared_context_engineeri.MutationTrace.Protocol.Runs.{performed, run_first}

-- The worktree needs a rebaseline, or is externally tainted.
abbrev pub is_waiting : WorktreeId → ProtocolState → Bool
is_waiting v s =
    is_some_and WorktreeState.needs_rebaseline (lookup v s.worktrees) || contains v s.external_taint

-- The action is not the recovery of the worktree.
abbrev pub IsOther : WorktreeId → Action → Type 0
IsOther v (recover_worktree worktree _) = worktree ≢ v
IsOther v (commit_attempt _) = Unit
IsOther v _ = Unit

abbrev pub AllOther : WorktreeId → List Action → Type 0
AllOther v [] = Unit
AllOther v (a ∷ actions) = IsOther v a × AllOther v actions

-- The worktree still waits, and its evidence is what it was.
record StillWaits (v : WorktreeId) (s t : ProtocolState) : Type 0 where
  waiting : is_waiting v t ≡ true
  same :
      (e : MutationEvent)
      → e.worktree_id ≡ v
      → contains e t.mutation_events ≡ contains e s.mutation_events

accepted-StillWaits :
    (v : WorktreeId) (s : ProtocolState) (attempt : AttemptId) (r : ResolvedAttempt)
    → Resolved s attempt r
    → (evaluate r s).accepted ≡ true
    → is_waiting v s ≡ true
    → StillWaits v s (accepted_state r (evaluate r s) attempt s)
unfolding evaluate is_fresh mutation_event
accepted-StillWaits v s attempt r found ok w =
    let revision = r.worktree_state.revision + 1 in
    record {
      waiting = ground (
        arith,
        found.worktree_state_eq,
        lookup-insert r.worktree v (advanced_worktree r (evaluate r s) revision) s.worktrees,
      );
      same = λ e p. ground (
        arith,
        found.worktree_state_eq,
        contains-set_insert (mutation_event r s revision) e s.mutation_events,
      );
    }

performed-StillWaits :
    (v : WorktreeId) (a : Action) (s : ProtocolState)
    → IsOther v a
    → is_waiting v s ≡ true
    → StillWaits v s (performed a s)
unfolding prepare database_failure
performed-StillWaits v (prepare_attempt attempt b tree) s n w = record {
  waiting = ground arith;
  same = λ e p. ground arith;
}
performed-StillWaits v (commit_attempt attempt) s n w =
    outcome_rule (StillWaits v s) s attempt (record { waiting = w; same = λ e p. refl })
      (λ r e ok. accepted-StillWaits v s attempt r (resolve-Resolved s attempt r e) ok w)
      (record { waiting = w; same = λ e p. refl })
performed-StillWaits v (taint_worktree worktree) s n w = elim (taint_cases s worktree) [
  | inl e ↦ rw e (record { waiting = w; same = λ e p. refl })
  | inr (k, c) ↦ rw c.result (record {
    waiting = ground (
      arith,
      c.found,
      lookup-insert worktree v (tainted_worktree k (k.revision + 1)) s.worktrees,
    );
    same = λ e p. refl;
  })
]
performed-StillWaits v (fail_database worktree) s n w = record {
  waiting = ground (arith, contains-set_insert worktree v s.external_taint);
  same = λ e p. ground arith;
}
performed-StillWaits v (abandon_scope scope) s n w = elim (abandon_cases s scope) [
  | inl e ↦ rw e (record { waiting = w; same = λ e p. refl })
  | inr (k, x, c) ↦ rw c.result (record {
    waiting = ground (
      arith,
      c.found_worktree,
      lookup-insert k.worktree_id v (rebaseline_worktree x (x.revision + 1)) s.worktrees,
    );
    same = λ e p. refl;
  })
]
performed-StillWaits v (recover_worktree worktree tree) s n w =
    elim (recover_cases s worktree tree) [
      | inl e ↦ rw e (record { waiting = w; same = λ e p. refl })
      | inr (k, c) ↦ rw c.result (record {
        waiting = ground (
          arith,
          c.found,
          n,
          lookup-insert worktree v (baseline tree (k.revision + 1)) s.worktrees,
          contains-set_remove worktree v s.external_taint,
        );
        same = λ e p. refl;
      })
    ]

-- While a worktree needs a rebaseline or is externally tainted, no run of actions other than its
-- recovery adds or removes an event of the worktree, and it still waits after the run.
pub waiting-no_evidence :
    (v : WorktreeId) (actions : List Action) (s t : ProtocolState) (e : MutationEvent)
    → AllOther v actions
    → is_waiting v s ≡ true
    → run actions s ≡ some t
    → e.worktree_id ≡ v
    → (is_waiting v t ≡ true) × (contains e t.mutation_events ≡ contains e s.mutation_events)
unfolding run
waiting-no_evidence v [] s t e n w h p = rw (sym (some-injective _ _ h)) (w, refl)
waiting-no_evidence v (a ∷ actions) s t e n w h p =
    let step = performed-StillWaits v a s n.0 w in
    let (still, same) =
      waiting-no_evidence v actions (performed a s) t e n.1 step.waiting (run_first a actions s t h)
        p in
    (still, same ∙ step.same e p)
