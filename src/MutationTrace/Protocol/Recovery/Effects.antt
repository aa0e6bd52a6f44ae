-- ===== src/MutationTrace/Protocol/Recovery/Effects.antt =====
-- What `taint`, `database_failure`, `abandon` and `recover` do, on every branch.
use shared_context_engineeri.Common.{
  ◌+◌, ◌<◌, ◌≡◌, inl, inr, true, false, not, some, lookup, lookup-insert, contains, ◌==◌, ◌&&◌,
  is_some_and, arith, if◌then◌else◌, ltb, Option-cases,
}
use mathlib.Core.Option
use shared_context_engineeri.MutationTrace.Types.{
  WorktreeId, ScopeId, healthy, abandoned, active, ineligible_unscoped, WorktreeState, ScopeState,
  ProtocolState,
}
use shared_context_engineeri.MutationTrace.Equality.{worktree_id_eq, scope_id_eq, failure_kind_eq}
use shared_context_engineeri.MutationTrace.Protocol.{u64_max, next_revision, attribution_for}
use shared_context_engineeri.MutationTrace.Protocol.Recovery.{
  taint, abandon, abandoned_scope, rebaseline_worktree, tainted_worktree,
}

-- `taint` of a known, healthy worktree that is not externally tainted and below `u64::MAX` marks
-- it as failed at the next revision, with its cursor and rebaseline flag kept; in every other case
-- it stays as it was. No other worktree, no scope, taint, event key or event changes.
pub taint_effect :
    (s : ProtocolState) (worktree v : WorktreeId)
    → let acts =
        is_some_and
          (λ w. w.failure_kind == healthy && ltb w.revision u64_max)
          (lookup worktree s.worktrees)
        && not (contains worktree s.external_taint) in
      let t = taint s worktree in
      (lookup v t.worktrees ≡ (
        if worktree == v && acts
        then Option.map (λ w. tainted_worktree w (w.revision + 1)) (lookup v s.worktrees)
        else lookup v s.worktrees))
      × (t.scopes ≡ s.scopes)
      × (t.external_taint ≡ s.external_taint)
      × (t.processed_events ≡ s.processed_events)
      × (t.mutation_events ≡ s.mutation_events)
unfolding taint next_revision
taint_effect s worktree v = elim (Option-cases (lookup worktree s.worktrees)) [
  | inl e ↦ ground arith
  | inr (w, e) ↦
      ground (arith, lookup-insert worktree v (tainted_worktree w (w.revision + 1)) s.worktrees)
]

-- `abandon` of a live scope whose worktree is known, not externally tainted and below `u64::MAX`
-- makes exactly that scope abandoned and leaves its worktree at the next revision with the old
-- cursor, waiting for a rebaseline, so that nothing on it is attributed any more; no evidence is
-- emitted.
pub abandon_effect :
    (s : ProtocolState) (scope : ScopeId) (k : ScopeState) (w : WorktreeState) (j : ScopeId)
    → lookup scope s.scopes ≡ some k
    → k.status ≡ active
    → lookup k.worktree_id s.worktrees ≡ some w
    → contains k.worktree_id s.external_taint ≡ false
    → w.revision < u64_max
    → let t = abandon s scope in
      (lookup j t.scopes
        ≡ (if scope == j then some (record k { status = abandoned }) else lookup j s.scopes))
      × (lookup k.worktree_id t.worktrees
          ≡ some (record w { revision = w.revision + 1; needs_rebaseline = true }))
      × (attribution_for t k.worktree_id ≡ ineligible_unscoped)
      × (t.mutation_events ≡ s.mutation_events)
unfolding abandon next_revision attribution_for
abandon_effect s scope k w j found live known untainted room = ground (
  arith,
  lookup-insert scope j (abandoned_scope k) s.scopes,
  lookup-insert k.worktree_id k.worktree_id (rebaseline_worktree w (w.revision + 1)) s.worktrees,
)
