-- ===== src/MutationTrace/Protocol/WellFormed/Recovery.antt =====
-- `prepare`, `taint`, `database_failure`, `abandon` and `recover` keep the invariant.
use shared_context_engineeri.Common.{
  ◌+◌, ◌≡◌, inl, inr, true, some, lookup, insert, if_rule, lookup-insert, IsUnique, insert-IsUnique,
  contains, contains_key, contains-set_insert, contains-set_remove, arith,
}
use shared_context_engineeri.MutationTrace.Types.{
  WorktreeId, ScopeId, TreeId, AttemptId, Boundary, WorktreeState, ProtocolState,
}
use shared_context_engineeri.MutationTrace.Equality.{worktree_id_eq, scope_id_eq, mutation_event_eq}
use shared_context_engineeri.MutationTrace.Protocol.{prepare}
use shared_context_engineeri.MutationTrace.Protocol.Recovery.{
  tainted_worktree, rebaseline_worktree, abandoned_scope, baseline, taint, database_failure,
  abandon, abandons_live_scopes, recover,
}
use shared_context_engineeri.MutationTrace.Protocol.Recovery.Cases.{
  taint_cases, abandon_cases, recover_cases,
}
use shared_context_engineeri.MutationTrace.Protocol.Recovery.Scopes.{abandon_live_on-IsUnique}
use shared_context_engineeri.MutationTrace.Protocol.Evolution.{Evolves}
use shared_context_engineeri.MutationTrace.Protocol.Evolution.Recovery.{
  prepare-Evolves, taint-Evolves, database_failure-Evolves, abandon-Evolves, recover-Evolves,
}
use shared_context_engineeri.MutationTrace.Protocol.WellFormed.{
  SoundAt, IsWellFormed, IsEvidence-Evolves,
}

-- the two fields that speak of the worktrees and of the external taint
record IsGrounded (s : ProtocolState) : Type 0 where
  unique_worktrees : IsUnique s.worktrees
  unique_scopes : IsUnique s.scopes
  sound : (w : WorktreeId) → SoundAt (lookup w s.worktrees)
  taint_known :
      (w : WorktreeId) → contains w s.external_taint ≡ true → contains_key w s.worktrees ≡ true

-- An action that emits nothing keeps what the invariant says of the evidence.
unemitting :
    (s t : ProtocolState)
    → IsWellFormed s
    → Evolves s t
    → t.mutation_events ≡ s.mutation_events
    → IsGrounded t
    → IsWellFormed t
unemitting s t h m same g = record {
  unique_worktrees = g.unique_worktrees;
  unique_scopes = g.unique_scopes;
  sound = g.sound;
  taint_known = g.taint_known;
  evidence = λ e mem. IsEvidence-Evolves s t e m (h.evidence e (rw same at mem));
  one_each = λ e f p q. h.one_each e f (rw same at p) (rw same at q);
}

grounded : (s : ProtocolState) → IsWellFormed s → IsGrounded s
grounded s h = record {
  unique_worktrees = h.unique_worktrees;
  unique_scopes = h.unique_scopes;
  sound = h.sound;
  taint_known = h.taint_known;
}

-- Writing a sound state of a worktree leaves the worktrees sound and known.
IsGrounded-insert :
    (s : ProtocolState) (worktree : WorktreeId) (w : WorktreeState)
    → IsWellFormed s
    → SoundAt (some w)
    → IsGrounded (record s { worktrees = insert worktree w s.worktrees })
unfolding contains_key
IsGrounded-insert s worktree w h ok = record {
  unique_worktrees = insert-IsUnique worktree w s.worktrees h.unique_worktrees;
  unique_scopes = h.unique_scopes;
  sound = λ v. ground (arith, ok, lookup-insert worktree v w s.worktrees, h.sound v);
  taint_known = λ v p. ground (arith, lookup-insert worktree v w s.worktrees, h.taint_known v p);
}

pub prepare-IsWellFormed :
    (s : ProtocolState) (attempt : AttemptId) (b : Boundary) (tree : TreeId)
    → IsWellFormed s
    → IsWellFormed (prepare s attempt b tree)
unfolding prepare
prepare-IsWellFormed s attempt b tree h =
    unemitting s _ h (prepare-Evolves s attempt b tree) (ground arith) (record {
      unique_worktrees = ground (arith, h.unique_worktrees);
      unique_scopes = ground (arith, h.unique_scopes);
      sound = λ w. ground (arith, h.sound w);
      taint_known = λ w p. ground (arith, h.taint_known w);
    })

pub taint-IsWellFormed :
    (s : ProtocolState) (worktree : WorktreeId) → IsWellFormed s → IsWellFormed (taint s worktree)
taint-IsWellFormed s worktree h = elim (taint_cases s worktree) [
  | inl e ↦ rw e h
  | inr (w, c) ↦
      let w' : WorktreeState = tainted_worktree w (w.revision + 1) in
      unemitting s _ h (taint-Evolves s worktree) (rw c.result)
        (rw c.result (IsGrounded-insert s worktree w' h (ground (arith, c.headroom))))
]

pub database_failure-IsWellFormed :
    (s : ProtocolState) (worktree : WorktreeId)
    → IsWellFormed s
    → IsWellFormed (database_failure s worktree)
unfolding database_failure
database_failure-IsWellFormed s worktree h =
    unemitting s _ h (database_failure-Evolves s worktree) (ground arith) (record {
      unique_worktrees = ground (arith, h.unique_worktrees);
      unique_scopes = ground (arith, h.unique_scopes);
      sound = λ w. ground (arith, h.sound w);
      taint_known =
          λ w p. ground (arith, contains-set_insert worktree w s.external_taint, h.taint_known w);
    })

pub abandon-IsWellFormed :
    (s : ProtocolState) (scope : ScopeId) → IsWellFormed s → IsWellFormed (abandon s scope)
abandon-IsWellFormed s scope h = elim (abandon_cases s scope) [
  | inl e ↦ rw e h
  | inr (k, w, c) ↦
      let w' : WorktreeState = rebaseline_worktree w (w.revision + 1) in
      let g : IsGrounded (record s { worktrees = insert k.worktree_id w' s.worktrees }) =
        IsGrounded-insert s k.worktree_id w' h
          (ground (arith, c.headroom, c.found_worktree, h.sound k.worktree_id)) in
      unemitting s _ h (abandon-Evolves s scope) (rw c.result) (
        rw c.result (record {
          unique_worktrees = g.unique_worktrees;
          unique_scopes = insert-IsUnique scope (abandoned_scope k) s.scopes h.unique_scopes;
          sound = g.sound;
          taint_known = g.taint_known;
        }))
]

pub recover-IsWellFormed :
    (s : ProtocolState) (worktree : WorktreeId) (tree : TreeId)
    → IsWellFormed s
    → IsWellFormed (recover s worktree tree)
recover-IsWellFormed s worktree tree h = elim (recover_cases s worktree tree) [
  | inl e ↦ rw e h
  | inr (w, c) ↦
      let w' : WorktreeState = baseline tree (w.revision + 1) in
      let g : IsGrounded (record s { worktrees = insert worktree w' s.worktrees }) =
        IsGrounded-insert s worktree w' h (ground (arith, c.headroom)) in
      unemitting s _ h (recover-Evolves s worktree tree h.unique_scopes) (rw c.result) (
        rw c.result (record {
          unique_worktrees = g.unique_worktrees;
          unique_scopes =
              if_rule IsUnique (abandons_live_scopes s worktree w)
                (λ _. abandon_live_on-IsUnique worktree s.scopes s.scopes h.unique_scopes)
                (λ _. h.unique_scopes);
          sound = g.sound;
          taint_known = λ v p.
              g.taint_known v (ground (arith, contains-set_remove worktree v s.external_taint));
        }))
]
