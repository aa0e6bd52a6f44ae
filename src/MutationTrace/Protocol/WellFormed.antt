-- ===== src/MutationTrace/Protocol/WellFormed.antt =====
-- The invariant of the protocol's state.
pub mod Attributed
pub mod Recovery
pub mod Commit
use shared_context_engineeri.Common.{
  ℕ, ◌≤◌, ◌<◌, ◌≡◌, ◌≢◌, Bool, true, false, Option, none, some, List, [], ◌∷◌, length, lookup,
  contains, contains_key, IsUnique, arith,
}
use shared_context_engineeri.MutationTrace.Types.{
  WorktreeId, ScopeId, FailureKind, healthy, snapshot_failure, Attribution, ineligible_unscoped,
  ai_exclusive, ai_contended, WorktreeState, MutationEvent, ProtocolState,
}
use shared_context_engineeri.MutationTrace.Equality.{worktree_id_eq, scope_id_eq, mutation_event_eq}
use shared_context_engineeri.MutationTrace.Protocol.{u64_max}
use shared_context_engineeri.MutationTrace.Protocol.Evolution.{Evolves}

abbrev pub is_failure : FailureKind → Bool
is_failure healthy = false
is_failure snapshot_failure = true

-- The revision is a `u64`, and `tainted` repeats what `failure_kind` says.
abbrev pub SoundAt : Option WorktreeState → Type 0
SoundAt none = Unit
SoundAt (some w) = (w.revision ≤ u64_max) × (w.tainted ≡ is_failure w.failure_kind)

-- An exclusive event names its only live scope, a contended one has two at least, and neither is
-- emitted by a worktree that has failed.
abbrev pub IsAttributed : Attribution → List ScopeId → FailureKind → Type 0
IsAttributed ineligible_unscoped scopes failure = Unit
IsAttributed (ai_exclusive s) scopes failure = (scopes ≡ s ∷ []) × (failure ≡ healthy)
IsAttributed ai_contended scopes failure = (2 ≤ length scopes) × (failure ≡ healthy)

abbrev pub RevisionWithin : ℕ → Option WorktreeState → Type 0
RevisionWithin revision none = ⊥
RevisionWithin revision (some w) = revision ≤ w.revision

pub record IsEvidence (s : ProtocolState) (e : MutationEvent) : Type 0 where
  pub positive : 0 < e.revision
  pub recorded : RevisionWithin e.revision (lookup e.worktree_id s.worktrees)
  pub real_change : e.before_tree ≢ e.after_tree
  pub taint_matches : e.tainted ≡ is_failure e.failure_kind
  pub attributed : IsAttributed e.attribution e.active_scopes e.failure_kind

pub record IsWellFormed (s : ProtocolState) : Type 0 where
  pub unique_worktrees : IsUnique s.worktrees
  pub unique_scopes : IsUnique s.scopes
  pub sound : (w : WorktreeId) → SoundAt (lookup w s.worktrees)
  pub taint_known :
      (w : WorktreeId) → contains w s.external_taint ≡ true → contains_key w s.worktrees ≡ true
  pub evidence : (e : MutationEvent) → contains e s.mutation_events ≡ true → IsEvidence s e
  pub one_each :
      (e f : MutationEvent)
      → contains e s.mutation_events ≡ true
      → contains f s.mutation_events ≡ true
      → e.worktree_id ≡ f.worktree_id
      → e.revision ≡ f.revision
      → e ≡ f

-- Evidence stays evidence.
pub IsEvidence-Evolves :
    (s t : ProtocolState) (e : MutationEvent) → Evolves s t → IsEvidence s e → IsEvidence t e
IsEvidence-Evolves s t e m h = record {
  positive = h.positive;
  recorded = ground (arith, m.worktrees e.worktree_id, h.recorded);
  real_change = h.real_change;
  taint_matches = h.taint_matches;
  attributed = h.attributed;
}
