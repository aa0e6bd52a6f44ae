-- ===== src/MutationTrace/Equality.antt =====
-- The equalities that cli/src/services/mutation_trace/types.rs derives.
use mathlib.Core.Bool.{Bool-discrete}
use native.Mathlib.Decide.{ℕ_discrete}
use shared_context_engineeri.Common.{Eq, String-discrete}
use shared_context_engineeri.MutationTrace.Types.{
  WorktreeId, ScopeId, TreeId, EventId, AttemptId, EventKey, ActorKind, FailureKind, ScopeStatus,
  AttemptStatus, Attribution, Boundary, MutationEvent,
}

-- `derive(Eq)` and `derive(Ord)`: the equality by which values are compared and sets keep one copy.
unfoldable pub WorktreeId-discrete : Discrete WorktreeId
unfolding String-discrete
WorktreeId-discrete = hlevel String-discrete

instance abbrev pub worktree_id_eq : Eq WorktreeId
worktree_id_eq = record { dec = WorktreeId-discrete }

unfoldable pub ScopeId-discrete : Discrete ScopeId
unfolding String-discrete
ScopeId-discrete = hlevel String-discrete

instance abbrev pub scope_id_eq : Eq ScopeId
scope_id_eq = record { dec = ScopeId-discrete }

unfoldable pub TreeId-discrete : Discrete TreeId
unfolding String-discrete
TreeId-discrete = hlevel String-discrete

instance abbrev pub tree_id_eq : Eq TreeId
tree_id_eq = record { dec = TreeId-discrete }

unfoldable pub EventId-discrete : Discrete EventId
unfolding String-discrete
EventId-discrete = hlevel String-discrete

instance abbrev pub event_id_eq : Eq EventId
event_id_eq = record { dec = EventId-discrete }

unfoldable pub AttemptId-discrete : Discrete AttemptId
unfolding String-discrete
AttemptId-discrete = hlevel String-discrete

instance abbrev pub attempt_id_eq : Eq AttemptId
attempt_id_eq = record { dec = AttemptId-discrete }

unfoldable pub EventKey-discrete : Discrete EventKey
unfolding ScopeId-discrete EventId-discrete
EventKey-discrete = hlevel (ScopeId-discrete, EventId-discrete)

instance abbrev pub event_key_eq : Eq EventKey
event_key_eq = record { dec = EventKey-discrete }

unfoldable pub ActorKind-discrete : Discrete ActorKind
ActorKind-discrete = hlevel

instance abbrev pub actor_kind_eq : Eq ActorKind
actor_kind_eq = record { dec = ActorKind-discrete }

unfoldable pub FailureKind-discrete : Discrete FailureKind
FailureKind-discrete = hlevel

instance abbrev pub failure_kind_eq : Eq FailureKind
failure_kind_eq = record { dec = FailureKind-discrete }

unfoldable pub ScopeStatus-discrete : Discrete ScopeStatus
ScopeStatus-discrete = hlevel

instance abbrev pub scope_status_eq : Eq ScopeStatus
scope_status_eq = record { dec = ScopeStatus-discrete }

unfoldable pub AttemptStatus-discrete : Discrete AttemptStatus
AttemptStatus-discrete = hlevel

instance abbrev pub attempt_status_eq : Eq AttemptStatus
attempt_status_eq = record { dec = AttemptStatus-discrete }

unfoldable pub Attribution-discrete : Discrete Attribution
unfolding ScopeId-discrete
Attribution-discrete = hlevel ScopeId-discrete

instance abbrev pub attribution_eq : Eq Attribution
attribution_eq = record { dec = Attribution-discrete }

unfoldable pub Boundary-discrete : Discrete Boundary
unfolding ScopeId-discrete EventId-discrete WorktreeId-discrete
Boundary-discrete = hlevel (ScopeId-discrete, EventId-discrete, WorktreeId-discrete)

instance abbrev pub boundary_eq : Eq Boundary
boundary_eq = record { dec = Boundary-discrete }

unfoldable pub MutationEvent-discrete : Discrete MutationEvent
unfolding WorktreeId-discrete TreeId-discrete Attribution-discrete Boundary-discrete
    FailureKind-discrete ℕ_discrete
MutationEvent-discrete = hlevel (
  WorktreeId-discrete, ℕ_discrete, TreeId-discrete, ScopeId-discrete, Bool-discrete,
  FailureKind-discrete, Attribution-discrete, Boundary-discrete,
)

instance abbrev pub mutation_event_eq : Eq MutationEvent
mutation_event_eq = record { dec = MutationEvent-discrete }
