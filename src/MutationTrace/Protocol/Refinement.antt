-- ===== src/MutationTrace/Protocol/Refinement.antt =====
-- Every run of the protocol refines the ledger of each worktree: it is a sequence of the ledger's
-- moves.
use shared_context_engineeri.Common.{
  ◌+◌, ◌≡◌, inl, inr, refl, true, some, List, [], ◌∷◌, lookup-insert, contains-set_insert,
  set_remove, insert, ap, ◌==◌, ◌&&◌, Bool-cases, arith, sym, ◌∙◌, if◌then◌else◌,
}
use mathlib.Core.Option.{some-injective}
use shared_context_engineeri.MutationTrace.Types.{
  WorktreeId, ScopeId, WorktreeState, ScopeState, ProtocolState, AttemptId,
}
use shared_context_engineeri.MutationTrace.Equality.{
  worktree_id_eq, scope_id_eq, tree_id_eq, mutation_event_eq,
}
use shared_context_engineeri.MutationTrace.Protocol.{prepare}
use shared_context_engineeri.MutationTrace.Protocol.Actions.{
  Action, prepare_attempt, commit_attempt, taint_worktree, fail_database, abandon_scope,
  recover_worktree, run,
}
use shared_context_engineeri.MutationTrace.Protocol.Commit.{
  ResolvedAttempt, evaluate, is_fresh, advanced_worktree, mutation_event,
}
use shared_context_engineeri.MutationTrace.Protocol.Commit.Cases.{accepted_state, outcome_rule}
use shared_context_engineeri.MutationTrace.Protocol.Commit.Fields.{Resolved, resolve-Resolved}
use shared_context_engineeri.MutationTrace.Protocol.Recovery.{
  tainted_worktree, rebaseline_worktree, baseline, database_failure, abandoned_scope,
  abandons_live_scopes, abandon_live_on,
}
use shared_context_engineeri.MutationTrace.Protocol.Recovery.Cases.{
  taint_cases, abandon_cases, recover_cases,
}
use shared_context_engineeri.MutationTrace.Protocol.Runs.{performed, run_first}
use shared_context_engineeri.MutationTrace.Protocol.Ledger.{
  Agrees, AllAllowed, IsAllowed, Ledger, Move, advance, move, move_all, observe, reset, stay, wait,
}

-- The next state agrees with the ledger after a move.
abbrev Refines : WorktreeId → Ledger → ProtocolState → Type 0
Refines v l t = (m : Move) × IsAllowed v m l × Agrees v t (move m l)

abbrev stays : (v : WorktreeId) (l : Ledger) (t : ProtocolState) → Agrees v t l → Refines v l t
stays v l t h = (stay, tt, h)

-- the worktree state agrees with the ledger
abbrev Matches : WorktreeState → Ledger → Type 0
Matches w l =
    (w.cursor_tree ≡ l.tree) × (w.revision ≡ l.revision) × (w.needs_rebaseline ≡ l.waiting)

-- a worktree is put into the state; the events stay
inserted :
    (v : WorktreeId) (l : Ledger) (s : ProtocolState) (worktree : WorktreeId) (w : WorktreeState)
    (taint : List WorktreeId) (scopes : List (ScopeId × ScopeState)) (m : Move)
    → IsAllowed v m l
    → Agrees v s l
    → ((worktree ≡ v) → Matches w (move m l) × ((move m l).has_event ≡ l.has_event))
    → Refines v l (record s {
      worktrees = insert worktree w s.worktrees;
      external_taint = taint;
      scopes = scopes;
    })
inserted v l s worktree w taint scopes m allowed h matches = elim (Bool-cases (worktree == v)) [
  | inl t ↦
      let same : worktree ≡ v = ground arith in
      let ((tree, revision, waiting), events) = matches same in
      (
        m,
        allowed,
        record {
          state = w;
          found = ground (arith, lookup-insert worktree v w s.worktrees);
          tree_eq = tree;
          revision_eq = revision;
          waiting_eq = waiting;
          events_eq = λ e p. h.events_eq e p ∙ ap (λ f. f e) (sym events);
        },
      )
  | inr other ↦ (
    stay,
    tt,
    record {
      state = h.state;
      found = ground (arith, lookup-insert worktree v w s.worktrees, h.found);
      tree_eq = h.tree_eq;
      revision_eq = h.revision_eq;
      waiting_eq = h.waiting_eq;
      events_eq = h.events_eq;
    },
  )
]

accepted-Refines :
    (v : WorktreeId) (l : Ledger) (s : ProtocolState) (attempt : AttemptId) (r : ResolvedAttempt)
    → Resolved s attempt r
    → (evaluate r s).accepted ≡ true
    → Agrees v s l
    → Refines v l (accepted_state r (evaluate r s) attempt s)
unfolding evaluate is_fresh mutation_event
accepted-Refines v l s attempt r found ok h =
    let ev = evaluate r s in
    let revision = r.worktree_state.revision + 1 in
    let w = advanced_worktree r ev revision in
    let event = mutation_event r s revision in
    elim (Bool-cases (r.worktree == v && ev.advances_revision)) [
      | inr other ↦ (
        stay,
        tt,
        record {
          state = h.state;
          found = ground (arith, lookup-insert r.worktree v w s.worktrees, h.found);
          tree_eq = h.tree_eq;
          revision_eq = h.revision_eq;
          waiting_eq = h.waiting_eq;
          events_eq = λ e p.
              ground
                (arith, other, p, contains-set_insert event e s.mutation_events, h.events_eq e p);
        },
      )
      | inl here ↦ elim (Bool-cases ev.changed) [
        | inr unchanged ↦ (
          advance,
          tt,
          record {
            state = w;
            found = ground (arith, here, lookup-insert r.worktree v w s.worktrees);
            tree_eq =
                ground (arith, here, unchanged, ok, found.worktree_state_eq, h.found, h.tree_eq);
            revision_eq = ground (arith, here, found.worktree_state_eq, h.found, h.revision_eq);
            waiting_eq = ground (arith, here, found.worktree_state_eq, h.found, h.waiting_eq);
            events_eq = λ e p. ground (arith, unchanged, h.events_eq e p);
          },
        )
        | inl changed ↦ (
          observe event,
          (
            ground (arith, here, changed, found.worktree_state_eq, h.found, h.waiting_eq),
            ground (arith, here),
            ground (arith, here, ok, found.worktree_state_eq, h.found, h.tree_eq),
            ground (arith, changed),
            ground (arith, here, found.worktree_state_eq, h.found, h.revision_eq),
          ),
          record {
            state = w;
            found = ground (arith, here, lookup-insert r.worktree v w s.worktrees);
            tree_eq = ground (arith, here, changed, ok);
            revision_eq = refl;
            waiting_eq = ground (arith, here, found.worktree_state_eq, h.found, h.waiting_eq);
            events_eq = λ e p.
                ground
                  (arith, changed, contains-set_insert event e s.mutation_events, h.events_eq e p);
          },
        )
      ]
    ]

performed-Refines :
    (v : WorktreeId) (l : Ledger) (a : Action) (s : ProtocolState)
    → Agrees v s l
    → Refines v l (performed a s)
unfolding prepare database_failure
performed-Refines v l (prepare_attempt attempt b tree) s h = (
  stay,
  tt,
  record {
    state = h.state;
    found = ground (arith, h.found);
    tree_eq = h.tree_eq;
    revision_eq = h.revision_eq;
    waiting_eq = h.waiting_eq;
    events_eq = λ e p. ground (arith, h.events_eq e p);
  },
)
performed-Refines v l (commit_attempt attempt) s h =
    outcome_rule (Refines v l) s attempt (stay, tt, h)
      (λ r e ok. accepted-Refines v l s attempt r (resolve-Resolved s attempt r e) ok h)
      (
        stay,
        tt,
        record {
          state = h.state;
          found = h.found;
          tree_eq = h.tree_eq;
          revision_eq = h.revision_eq;
          waiting_eq = h.waiting_eq;
          events_eq = h.events_eq;
        },
      )
performed-Refines v l (fail_database worktree) s h = (
  stay,
  tt,
  record {
    state = h.state;
    found = ground (arith, h.found);
    tree_eq = h.tree_eq;
    revision_eq = h.revision_eq;
    waiting_eq = h.waiting_eq;
    events_eq = λ e p. ground (arith, h.events_eq e p);
  },
)
performed-Refines v l (taint_worktree worktree) s h = elim (taint_cases s worktree) [
  | inl e ↦ rw e (stay, tt, h)
  | inr (w, c) ↦ rw c.result (
      inserted v l s worktree (tainted_worktree w (w.revision + 1)) s.external_taint s.scopes
        advance tt h
        (λ same. ground (arith, c.found, same, h.found, h.tree_eq, h.revision_eq, h.waiting_eq)))
]
performed-Refines v l (abandon_scope scope) s h = elim (abandon_cases s scope) [
  | inl e ↦ rw e (stay, tt, h)
  | inr (k, w, c) ↦ rw c.result (
      inserted v l s k.worktree_id (rebaseline_worktree w (w.revision + 1)) s.external_taint
        (insert scope (abandoned_scope k) s.scopes) wait tt h
        (λ same. ground (arith, c.found_worktree, same, h.found, h.tree_eq, h.revision_eq)))
]
performed-Refines v l (recover_worktree worktree tree) s h = elim (recover_cases s worktree tree) [
  | inl e ↦ rw e (stay, tt, h)
  | inr (w, c) ↦ rw c.result (
      inserted v l s worktree (baseline tree (w.revision + 1))
        (set_remove worktree s.external_taint)
        (if abandons_live_scopes s worktree w
          then abandon_live_on worktree s.scopes s.scopes
          else s.scopes)
        (reset tree) tt h (λ same. ground (arith, c.found, same, h.found, h.revision_eq)))
]

-- Every run of the protocol, of whatever hooks and recoveries, refines the ledger of each worktree:
-- what the state keeps of the worktree changes by a sequence of allowed moves.
pub run-refines_ledger :
    (v : WorktreeId) (actions : List Action) (s t : ProtocolState) (l : Ledger)
    → Agrees v s l
    → run actions s ≡ some t
    → (moves : List Move) × AllAllowed v moves l × Agrees v t (move_all moves l)
unfolding run
run-refines_ledger v [] s t l h e = ([], tt, rw (sym (some-injective _ _ e)) h)
run-refines_ledger v (a ∷ actions) s t l h e =
    let (m, allowed, after) = performed-Refines v l a s h in
    let (moves, all, last) =
      run-refines_ledger v actions (performed a s) t (move m l) after (run_first a actions s t e) in
    (m ∷ moves, (allowed, all), last)
