-- ===== src/MutationTrace/Protocol/Evolution.antt =====
-- The direction in which the protocol's state moves, as an order on states.
pub mod Recovery
pub mod Commit
use shared_context_engineeri.Common.{
  ◌≤◌, ◌≡◌, Bool, true, false, Option, none, some, lookup, contains, arith,
}
use shared_context_engineeri.MutationTrace.Types.{
  WorktreeId, ScopeId, EventKey, ScopeStatus, never_seen, active, closed, abandoned, WorktreeState,
  ScopeState, MutationEvent, ProtocolState,
}
use shared_context_engineeri.MutationTrace.Equality.{
  worktree_id_eq, scope_id_eq, event_key_eq, mutation_event_eq,
}

-- The lifecycle of a scope: a closed or abandoned scope stays so, and no scope is unseen again.
abbrev pub is_later : ScopeStatus → ScopeStatus → Bool
is_later never_seen _ = true
is_later active never_seen = false
is_later active _ = true
is_later closed closed = true
is_later abandoned abandoned = true
is_later _ _ = false

-- The same worktree later: its revision has not gone back.
abbrev pub WorktreeLe : Option WorktreeState → Option WorktreeState → Type 0
WorktreeLe none none = Unit
WorktreeLe (some a) (some b) = a.revision ≤ b.revision
WorktreeLe _ _ = ⊥

-- The same scope later: it has kept its actor and its worktree.
abbrev pub ScopeLe : Option ScopeState → Option ScopeState → Type 0
ScopeLe none none = Unit
ScopeLe (some a) (some b) =
    (a.actor_kind ≡ b.actor_kind)
    × (a.worktree_id ≡ b.worktree_id)
    × (is_later a.status b.status ≡ true)
ScopeLe _ _ = ⊥

pub record Evolves (s t : ProtocolState) : Type 0 where
  pub worktrees : (w : WorktreeId) → WorktreeLe (lookup w s.worktrees) (lookup w t.worktrees)
  pub scopes : (k : ScopeId) → ScopeLe (lookup k s.scopes) (lookup k t.scopes)
  pub processed :
      (k : EventKey) → contains k s.processed_events ≡ true → contains k t.processed_events ≡ true
  pub evidence :
      (e : MutationEvent)
      → contains e s.mutation_events ≡ true
      → contains e t.mutation_events ≡ true

pub WorktreeLe-refl : (a : Option WorktreeState) → WorktreeLe a a
WorktreeLe-refl none = tt
WorktreeLe-refl (some a) = omega arith

pub ScopeLe-refl : (a : Option ScopeState) → ScopeLe a a
ScopeLe-refl none = tt
ScopeLe-refl (some a) = ground arith

pub Evolves-refl : (s : ProtocolState) → Evolves s s
Evolves-refl s = record {
  worktrees = λ w. WorktreeLe-refl _;
  scopes = λ k. ScopeLe-refl _;
  processed = λ k h. h;
  evidence = λ e h. h;
}

WorktreeLe-trans : (a b c : Option WorktreeState) → WorktreeLe a b → WorktreeLe b c → WorktreeLe a c
WorktreeLe-trans a b c p q = ground arith

ScopeLe-trans : (a b c : Option ScopeState) → ScopeLe a b → ScopeLe b c → ScopeLe a c
ScopeLe-trans a b c p q = ground arith

pub Evolves-trans : (s t u : ProtocolState) → Evolves s t → Evolves t u → Evolves s u
Evolves-trans s t u p q = record {
  worktrees = λ w. WorktreeLe-trans _ _ _ (p.worktrees w) (q.worktrees w);
  scopes = λ k. ScopeLe-trans _ _ _ (p.scopes k) (q.scopes k);
  processed = λ k h. q.processed k (p.processed k h);
  evidence = λ e h. q.evidence e (p.evidence e h);
}
