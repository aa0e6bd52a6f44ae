-- ===== src/MutationTrace/Window/Events.antt =====
-- The events of an agent: those that are healthy and exclusive to a scope.
use shared_context_engineeri.Common.{
  ◌&&◌, some, none, ◌≡◌, refl, Bool, true, false, Option, List, [], ◌∷◌, ◌||◌, ◌==◌, arith,
}
use shared_context_engineeri.Patch.{touched_line_kind_eq}
use shared_context_engineeri.MutationTrace.Types.{ScopeId, healthy}
use shared_context_engineeri.MutationTrace.Equality.{tree_id_eq, scope_id_eq, failure_kind_eq}
use shared_context_engineeri.MutationTrace.Lineage.{TransitionOrigin, unobserved}
use shared_context_engineeri.MutationTrace.Window.{
  AttributionKind, ineligible_unscoped, ai_exclusive, ai_contended, MutationEventPageRow,
}
use shared_context_engineeri.MutationTrace.Window.Replay.{exclusive_to, transition_origin}

-- a transition of the scope
abbrev pub is_of : ScopeId → TransitionOrigin → Bool
is_of scope_id (TransitionOrigin.mutation_ai other) = other == scope_id
is_of scope_id TransitionOrigin.mutation_non_ai = false
is_of scope_id unobserved = false

abbrev pub is_exclusive : AttributionKind → Bool
is_exclusive ai_exclusive = true
is_exclusive ai_contended = false
is_exclusive ineligible_unscoped = false

abbrev is_scope : ScopeId → Option ScopeId → Bool
is_scope scope_id none = false
is_scope scope_id (some other) = other == scope_id

-- the event is healthy, and exclusive to the scope
abbrev pub is_event_of : ScopeId → MutationEventPageRow → Bool
is_event_of scope_id row =
    row.failure_kind == healthy
    && is_exclusive row.attribution_kind
    && is_scope scope_id row.attribution_scope_id

abbrev pub has_event_of : ScopeId → List MutationEventPageRow → Bool
has_event_of scope_id [] = false
has_event_of scope_id (row ∷ rows) = is_event_of scope_id row || has_event_of scope_id rows

is_of-exclusive_to :
    (scope_id : ScopeId) (kind : AttributionKind) (scope : Option ScopeId)
    → is_of scope_id (exclusive_to kind scope) ≡ (is_exclusive kind && is_scope scope_id scope)
is_of-exclusive_to scope_id ai_exclusive none = refl
is_of-exclusive_to scope_id ai_exclusive (some other) = refl
is_of-exclusive_to scope_id ai_contended scope = refl
is_of-exclusive_to scope_id ineligible_unscoped scope = refl

pub is_of-transition_origin :
    (scope_id : ScopeId) (row : MutationEventPageRow)
    → is_of scope_id (transition_origin row) ≡ is_event_of scope_id row
is_of-transition_origin scope_id row =
    ground (arith, is_of-exclusive_to scope_id row.attribution_kind row.attribution_scope_id)
