-- ===== src/MutationTrace/Types.antt =====
-- cli/src/services/mutation_trace/types.rs: the state of the mutation-cursor protocol. `BTreeMap`
-- is an association list and `BTreeSet` a list without repetition; the protocol does not depend on
-- the order in which they are iterated. The modules below hold the derived equalities and the
-- accessors of a boundary.
use shared_context_engineeri.Common.{ℕ, String, Bool, List}

pub record WorktreeId : Type 0 where
  pub text : String

pub record ScopeId : Type 0 where
  pub text : String

pub record TreeId : Type 0 where
  pub text : String

pub record EventId : Type 0 where
  pub text : String

pub record AttemptId : Type 0 where
  pub text : String

pub record EventKey : Type 0 where
  pub scope_id : ScopeId
  pub event_id : EventId

pub data ActorKind : Type 0 where
  claude_code codex open_code pi : ActorKind

pub data FailureKind : Type 0 where
  healthy snapshot_failure : FailureKind

pub data ScopeStatus : Type 0 where
  never_seen active closed abandoned : ScopeStatus

pub data AttemptStatus : Type 0 where
  available prepared committed rejected : AttemptStatus

pub data Attribution : Type 0 where
  ineligible_unscoped : Attribution
  ai_exclusive : ScopeId → Attribution
  ai_contended : Attribution

pub data Boundary : Type 0 where
  start : ScopeId → EventId → Boundary
  advance : ScopeId → EventId → Boundary
  close : ScopeId → EventId → Boundary
  flush : WorktreeId → Boundary

pub record WorktreeState : Type 0 where
  pub cursor_tree : TreeId
  pub revision : ℕ  -- u64
  pub tainted : Bool
  pub failure_kind : FailureKind
  pub needs_rebaseline : Bool

pub record ScopeState : Type 0 where
  pub status : ScopeStatus
  pub actor_kind : ActorKind
  pub worktree_id : WorktreeId

pub record AttemptState : Type 0 where
  pub status : AttemptStatus
  pub boundary : Boundary
  pub expected_revision : ℕ  -- u64
  pub before_tree : TreeId
  pub after_tree : TreeId

pub record MutationEvent : Type 0 where
  pub worktree_id : WorktreeId
  pub revision : ℕ  -- u64
  pub before_tree : TreeId
  pub after_tree : TreeId
  pub active_scopes : List ScopeId
  pub tainted : Bool
  pub failure_kind : FailureKind
  pub attribution : Attribution
  pub boundary : Boundary

-- `scopes` and the other maps are looked up by key only.
pub record ProtocolState : Type 0 where
  pub worktrees : List (WorktreeId × WorktreeState)
  pub scopes : List (ScopeId × ScopeState)
  pub external_taint : List WorktreeId
  pub processed_events : List EventKey
  pub attempts : List (AttemptId × AttemptState)
  pub mutation_events : List MutationEvent
