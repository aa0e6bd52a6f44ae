-- ===== src/MutationTrace/Window/Replay.antt =====
-- The replay of the events of the window, and the whole of the attribution.
use shared_context_engineeri.Common.{
  ℕ, ◌+◌, String, Bool, true, false, Option, none, some, List, [], ◌∷◌, map, ◌==◌, ◌!=◌,
  if◌then◌else◌,
}
use shared_context_engineeri.Common.Outcome.{Outcome}
use shared_context_engineeri.Common.Result.{Result, ok, err, ok_or, ◌>>=◌}
use shared_context_engineeri.Patch.{touched_line_kind_eq, ParsedPatch}
use shared_context_engineeri.Patch.Parse as Parse
use shared_context_engineeri.Patch.Parse.{Parsed, parse_patch}
use shared_context_engineeri.MutationTrace.Types.{WorktreeId, ScopeId, TreeId, healthy}
use shared_context_engineeri.MutationTrace.Equality.{tree_id_eq, failure_kind_eq}
use shared_context_engineeri.MutationTrace.Lineage.{TransitionOrigin, unobserved, LineageError}
use shared_context_engineeri.MutationTrace.Lineage.Files.{
  MutationLineage, apply, from_baseline, reset_all,
}
use shared_context_engineeri.MutationTrace.Attribution.{exclude_direct_coverage}
use shared_context_engineeri.MutationTrace.Window.{
  AttributionKind, ineligible_unscoped, ai_exclusive, ai_contended, MutationEventPageRow,
  MutationEventPageSource, TreeReadSource, MutationAttributionBarrier, event_reconstruction, tail,
  ReplayState, BoundedMutationAttribution, Failure, panicked, initial, empty_patch, empty,
  target_logical_paths, load_event_window,
}
use shared_context_engineeri.MutationTrace.Window.Project.{project}

abbrev pub read_or_none : Option (Option String) → Option String
read_or_none none = none
read_or_none (some content) = content

abbrev pub Baseline : Type 0
Baseline = List (String × Option String)

unfoldable pub load_baseline : TreeReadSource → TreeId → List String → Baseline
load_baseline source tree target_paths =
    map (λ path. (path, read_or_none (source.file_at_tree tree path))) target_paths

abbrev pub exclusive_to : AttributionKind → Option ScopeId → TransitionOrigin
exclusive_to ai_exclusive (some scope_id) = TransitionOrigin.mutation_ai scope_id
exclusive_to ai_exclusive none = TransitionOrigin.mutation_non_ai
exclusive_to ai_contended _ = TransitionOrigin.mutation_non_ai
exclusive_to ineligible_unscoped _ = TransitionOrigin.mutation_non_ai

abbrev pub transition_origin : MutationEventPageRow → TransitionOrigin
transition_origin row =
    if row.failure_kind == healthy
    then exclusive_to row.attribution_kind row.attribution_scope_id
    else TransitionOrigin.mutation_non_ai

-- the lineage, and whether it was reset
unfoldable pub reset_unless_applied :
    Baseline
    → MutationLineage × Outcome LineageError (Unit {0})
    → Result Failure (MutationLineage × Bool)
unfolding reset_all
reset_unless_applied baseline (m, Outcome.ok _) = ok (m, false)
reset_unless_applied baseline (m, Outcome.err _) = ok (reset_all m baseline, true)
reset_unless_applied baseline (m, Outcome.panicked) = err panicked

unfoldable pub apply_or_reset :
    TreeReadSource
    → List String
    → MutationLineage
    → Option ParsedPatch
    → TransitionOrigin
    → TreeId
    → Result Failure (MutationLineage × Bool)
unfolding apply reset_unless_applied reset_all load_baseline
apply_or_reset source target_paths m none origin fallback_tree =
    ok (reset_all m (load_baseline source fallback_tree target_paths), true)
apply_or_reset source target_paths m (some patch) origin fallback_tree =
    reset_unless_applied (load_baseline source fallback_tree target_paths) (apply m patch origin)

abbrev pub parsed : Parsed ParsedPatch → Option ParsedPatch
parsed (Parse.ok patch) = some patch
parsed (Parse.err _) = none

-- the patch of a difference of two trees that is read and parsed
abbrev pub patch_of : Option String → Option ParsedPatch
unfolding parse_patch
patch_of none = none
patch_of (some text) = parsed (parse_patch text none)

abbrev pub is_some : Option ParsedPatch → Bool
is_some none = false
is_some (some _) = true

-- the counters after an event or the tail
abbrev pub counted : MutationAttributionBarrier → Bool → ReplayState → ReplayState
counted barrier true state = record state {
  gap_resets = state.gap_resets + 1;
  barrier = some barrier;
}
counted barrier false state = state

abbrev pub Replay : Type 0
Replay = MutationLineage × TreeId × ReplayState

-- the part of `replay` for one event
unfoldable pub replay_event :
    TreeReadSource → List String → MutationEventPageRow → Replay → Result Failure Replay
unfolding reset_all load_baseline patch_of apply_or_reset
replay_event source target_paths row (m, prev_after, state) =
    let gap = row.before_tree != prev_after in
    let start =
      if gap then reset_all m (load_baseline source row.before_tree target_paths) else m in
    let reconstructed = patch_of (source.diff_trees row.before_tree row.after_tree) in
    let seen = record state {
      inspected_events = state.inspected_events + 1;
      gap_resets = if gap then state.gap_resets + 1 else state.gap_resets;
      reconstructed_events =
          if is_some reconstructed
          then state.reconstructed_events + 1
          else state.reconstructed_events;
    } in
    apply_or_reset source target_paths start reconstructed (transition_origin row) row.after_tree
    >>= λ r. ok (r.0, row.after_tree, counted event_reconstruction r.1 seen)

unfoldable pub replay_events :
    TreeReadSource → List String → List MutationEventPageRow → Replay → Result Failure Replay
unfolding replay_event
replay_events source target_paths [] replay = ok replay
replay_events source target_paths (row ∷ rows) replay =
    replay_event source target_paths row replay >>= replay_events source target_paths rows

-- after the events
unfoldable pub replay_tail :
    TreeReadSource → List String → TreeId → Replay → Result Failure (MutationLineage × ReplayState)
unfolding patch_of apply_or_reset
replay_tail source target_paths commit_tree (m, prev_after, state) =
    let applied : Result Failure (MutationLineage × ReplayState) =
      apply_or_reset source target_paths m (patch_of (source.diff_trees prev_after commit_tree))
        unobserved commit_tree
      >>= λ r. ok (r.0, counted tail r.1 state) in
    if prev_after != commit_tree then applied else ok (m, state)

-- the events `row ∷ rows`
unfoldable pub replay :
    TreeReadSource
    → List String
    → TreeId
    → MutationEventPageRow
    → List MutationEventPageRow
    → ReplayState
    → Result Failure (MutationLineage × ReplayState)
unfolding replay_events replay_tail from_baseline load_baseline
replay source target_paths commit_tree row rows state =
    let baseline = load_baseline source row.before_tree target_paths in
    replay_events source target_paths (row ∷ rows) (from_baseline baseline, row.before_tree, state)
    >>= replay_tail source target_paths commit_tree

-- `finish`, with the events of the window
unfoldable pub finish :
    MutationEventPageSource
    → TreeReadSource
    → ParsedPatch
    → TreeId
    → List MutationEventPageRow × ReplayState
    → Result Failure BoundedMutationAttribution
unfolding replay project
finish pages trees target commit_tree ([], state) = ok (record {
  result = record {
    mutation_ai_patch = empty_patch;
    resolved_non_ai_patch = empty_patch;
    unresolved_patch = target;
  };
  state = state;
})
finish pages trees target commit_tree (row ∷ rows, state) =
    replay trees (target_logical_paths target) commit_tree row rows state >>= λ r.
    ok (record { result = project pages target r.0; state = r.1 })

abbrev pub no_paths : List String → Bool
no_paths [] = true
no_paths (_ ∷ _) = false

unfoldable pub resolve_bounded_mutation_attribution :
    MutationEventPageSource
    → TreeReadSource
    → WorktreeId
    → ParsedPatch
    → ParsedPatch
    → TreeId
    → Option ℕ
    → Result Failure BoundedMutationAttribution
unfolding exclude_direct_coverage load_event_window finish
resolve_bounded_mutation_attribution pages trees worktree direct_coverage committed_patch
      commit_tree revision_ceiling =
    ok_or (exclude_direct_coverage committed_patch direct_coverage) panicked >>= λ target.
    if no_paths (target_logical_paths target)
    then ok empty
    else load_event_window pages worktree revision_ceiling initial
      >>= finish pages trees target commit_tree
