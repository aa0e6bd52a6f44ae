-- ===== src/MutationTrace/Protocol/WellFormed/Commit.antt =====
-- `commit` keeps the invariant.
use shared_context_engineeri.Common.{
  ◌+◌, ◌≡◌, ◌≢◌, inl, inr, ◌⊎◌, true, if_rule, lookup-insert, IsUnique, insert-IsUnique, contains,
  contains_key, contains-set_insert, arith,
}
use shared_context_engineeri.MutationTrace.Types.{AttemptId, MutationEvent, ProtocolState}
use shared_context_engineeri.MutationTrace.Equality.{worktree_id_eq, scope_id_eq, mutation_event_eq}
use shared_context_engineeri.MutationTrace.Protocol.Commit.{
  ResolvedAttempt, resolve, evaluate, advanced_worktree, mutation_event,
}
use shared_context_engineeri.MutationTrace.Protocol.Commit.Cases.{
  evaluate-Flags, accepted_state, outcome_of, outcome_rule,
}
use shared_context_engineeri.MutationTrace.Protocol.Commit.Fields.{
  Resolved, resolve-Resolved, apply_scope-IsUnique,
}
use shared_context_engineeri.MutationTrace.Protocol.Evolution.Commit.{
  accepted-Evolves, rejected-Evolves,
}
use shared_context_engineeri.MutationTrace.Protocol.WellFormed.{
  IsWellFormed, IsEvidence, IsEvidence-Evolves,
}
use shared_context_engineeri.MutationTrace.Protocol.WellFormed.Attributed.{
  attribution_for_boundary-IsAttributed,
}

pub changed-real_change :
    (s : ProtocolState) (r : ResolvedAttempt)
    → (evaluate r s).changed ≡ true
    → r.planned.before_tree ≢ r.planned.after_tree
unfolding evaluate
changed-real_change s r h = ground arith

-- An event after the commit is the new one, or was there before.
pub accepted_event :
    (s : ProtocolState) (attempt : AttemptId) (r : ResolvedAttempt) (e : MutationEvent)
    → contains e (accepted_state r (evaluate r s) attempt s).mutation_events ≡ true
    → ((evaluate r s).changed ≡ true) × (e ≡ mutation_event r s (r.worktree_state.revision + 1))
      ⊎ (contains e s.mutation_events ≡ true)
accepted_event s attempt r e m = ground (
  arith,
  contains-set_insert (mutation_event r s (r.worktree_state.revision + 1)) e s.mutation_events,
)

module _ (s : ProtocolState) (attempt : AttemptId) (r : ResolvedAttempt)
    (found : Resolved s attempt r) (h : IsWellFormed s) where
  new-IsEvidence :
      (evaluate r s).changed ≡ true
      → IsEvidence
          (accepted_state r (evaluate r s) attempt s)
          (mutation_event r s (r.worktree_state.revision + 1))
  unfolding mutation_event
  new-IsEvidence c =
      let revision = r.worktree_state.revision + 1 in
      let flags = evaluate-Flags r s in
      record {
        positive = ground arith;
        recorded = ground (
          arith,
          flags,
          lookup-insert r.worktree r.worktree (advanced_worktree r (evaluate r s) revision)
              s.worktrees,
        );
        real_change = changed-real_change s r c;
        taint_matches = ground (arith, h.sound r.worktree, found.worktree_state_eq);
        attributed =
            attribution_for_boundary-IsAttributed s r.worktree r.boundary r.worktree_state
              found.worktree_state_eq;
      }

  -- No earlier event has the revision of the new one.
  revision_unused :
      (f : MutationEvent)
      → contains f s.mutation_events ≡ true
      → f.worktree_id ≡ r.worktree
      → f.revision ≢ r.worktree_state.revision + 1
  revision_unused f m p = ground (arith, (h.evidence f m).recorded, found.worktree_state_eq)

  one_each_accepted :
      (e f : MutationEvent)
      → contains e (accepted_state r (evaluate r s) attempt s).mutation_events ≡ true
      → contains f (accepted_state r (evaluate r s) attempt s).mutation_events ≡ true
      → e.worktree_id ≡ f.worktree_id
      → e.revision ≡ f.revision
      → e ≡ f
  unfolding mutation_event
  one_each_accepted e f p q same_worktree same_revision = elim (accepted_event s attempt r e p) [
    | inl a ↦ elim (accepted_event s attempt r f q) [
      | inl b ↦ cc
      | inr b ↦ absurd (revision_unused f b (ground arith) (ground arith))
    ]
    | inr a ↦ elim (accepted_event s attempt r f q) [
      | inl b ↦ absurd (revision_unused e a (ground arith) (ground arith))
      | inr b ↦ h.one_each e f a b same_worktree same_revision
    ]
  ]

  accepted-IsWellFormed : IsWellFormed (accepted_state r (evaluate r s) attempt s)
  unfolding contains_key
  accepted-IsWellFormed =
      let revision = r.worktree_state.revision + 1 in
      let w = advanced_worktree r (evaluate r s) revision in
      let e₀ = mutation_event r s revision in
      let flags = evaluate-Flags r s in
      record {
        unique_worktrees =
            if_rule IsUnique (evaluate r s).advances_revision
              (λ _. insert-IsUnique r.worktree w s.worktrees h.unique_worktrees)
              (λ _. h.unique_worktrees);
        unique_scopes = apply_scope-IsUnique r (evaluate r s) s h.unique_scopes;
        sound = λ v. ground (
          arith,
          flags,
          found.worktree_state_eq,
          h.sound r.worktree,
          lookup-insert r.worktree v w s.worktrees,
          h.sound v,
        );
        taint_known =
            λ v p. ground (arith, lookup-insert r.worktree v w s.worktrees, h.taint_known v p);
        evidence = λ e m. elim (accepted_event s attempt r e m) [
          | inl (c, p) ↦ rw p (new-IsEvidence c)
          | inr old ↦
              IsEvidence-Evolves s _ e (accepted-Evolves s attempt r found) (h.evidence e old)
        ];
        one_each = one_each_accepted;
      }

pub outcome-IsWellFormed :
    (s : ProtocolState) (attempt : AttemptId)
    → IsWellFormed s
    → IsWellFormed (outcome_of s attempt (resolve s attempt)).state
outcome-IsWellFormed s attempt h =
    outcome_rule IsWellFormed s attempt h
      (λ r e _. accepted-IsWellFormed s attempt r (resolve-Resolved s attempt r e) h)
      (record {
        unique_worktrees = h.unique_worktrees;
        unique_scopes = h.unique_scopes;
        sound = h.sound;
        taint_known = h.taint_known;
        evidence = λ e m. IsEvidence-Evolves s _ e (rejected-Evolves s attempt) (h.evidence e m);
        one_each = h.one_each;
      })
