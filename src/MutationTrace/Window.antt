-- ===== src/MutationTrace/Window.antt =====
-- cli/src/services/mutation_trace/runtime/mutation_attribution.rs: which lines of a commit the
-- mutation trace attributes. The newest events before a revision are loaded in pages and replayed
-- over a baseline of the target's files. The pages and the trees are parameters, of which every read
-- may fail. The loop over the pages runs on fuel, the largest number of events.
pub mod Project
pub mod Replay
pub mod Pages
pub mod Partition
pub mod Divided
pub mod Events
pub mod Sound
pub mod Credited
pub mod Unattributed
pub mod Tests
use shared_context_engineeri.Common.{
  ℕ, zero, suc, ◌+◌, ◌-◌, String, Bool, true, false, not, Option, none, some, List, [], ◌∷◌, ◌++◌,
  length, min, nat_eq, ltb, contains, ◌==◌, ◌!=◌, ◌&&◌, if◌then◌else◌, string_eq,
}
use mathlib.Core.List.{reverse}
use shared_context_engineeri.Common.Result.{Result, ok, err, ◌>>=◌}
use shared_context_engineeri.Patch.{
  TouchedLineKind, touched_line_kind_eq, TouchedLine, PatchHunk, PatchFileChange, ParsedPatch,
}
use shared_context_engineeri.Patch.Parse as Parse
use shared_context_engineeri.MutationTrace.Types.{WorktreeId, ScopeId, TreeId, FailureKind, healthy}
use shared_context_engineeri.MutationTrace.Equality.{tree_id_eq, failure_kind_eq}
use shared_context_engineeri.MutationTrace.Lineage.{
  LineProvenance, TransitionOrigin, unobserved, LineageError,
}
use shared_context_engineeri.MutationTrace.Lineage.Files.{
  MutationLineage, logical_path, apply, from_baseline, reset_all, provenance_at,
}
use shared_context_engineeri.MutationTrace.Attribution.{
  PatchLineLocation, at, PatchLineProvenance, Provenances, patch_for_locations,
  patch_for_locations_with_provenance, exclude_direct_coverage,
}

-- `checked_add` on u64
abbrev pub u64_max : ℕ
u64_max = 18446744073709551615

abbrev pub max_mutation_attribution_events : ℕ
max_mutation_attribution_events = 128

abbrev pub mutation_attribution_page_size : ℕ
mutation_attribution_page_size = 32

pub data AttributionKind : Type 0 where
  ineligible_unscoped ai_exclusive ai_contended : AttributionKind

pub record MutationEventPageRow : Type 0 where
  pub revision : ℕ
  pub before_tree : TreeId
  pub after_tree : TreeId
  pub failure_kind : FailureKind
  pub attribution_kind : AttributionKind
  pub attribution_scope_id : Option ScopeId

pub record ScopeProvenance : Type 0 where
  pub scope_id : ScopeId
  pub session_id : String
  pub model_id : Option String

-- `none` is a read that fails
pub record MutationEventPageSource : Type 0 where
  pub load_mutation_event_page : WorktreeId → Option ℕ → ℕ → Option (List MutationEventPageRow)
  pub load_scope_provenance : ScopeId → Option (Option ScopeProvenance)

pub record TreeReadSource : Type 0 where
  pub diff_trees : TreeId → TreeId → Option String
  pub file_at_tree : TreeId → String → Option (Option String)

pub data MutationAttributionBarrier : Type 0 where
  page_query event_reconstruction tail : MutationAttributionBarrier

pub record MutationAttributionResult : Type 0 where
  pub mutation_ai_patch : ParsedPatch
  pub resolved_non_ai_patch : ParsedPatch
  pub unresolved_patch : ParsedPatch

pub record ReplayState : Type 0 where
  pub loaded_pages : ℕ
  pub loaded_rows : ℕ
  pub inspected_events : ℕ
  pub reconstructed_events : ℕ
  pub gap_resets : ℕ
  pub barrier : Option MutationAttributionBarrier

-- the fields of `BoundedMutationAttribution` but `result` are those of the state
pub record BoundedMutationAttribution : Type 0 where
  pub result : MutationAttributionResult
  pub state : ReplayState

-- the panic of an `apply`, and the model's own
pub data Failure : Type 0 where
  panicked out_of_fuel : Failure

abbrev pub initial : ReplayState
initial = record {
  loaded_pages = 0;
  loaded_rows = 0;
  inspected_events = 0;
  reconstructed_events = 0;
  gap_resets = 0;
  barrier = none;
}

abbrev pub empty_patch : ParsedPatch
empty_patch = record { files = [] }

abbrev pub empty : BoundedMutationAttribution
empty = record {
  result = record {
    mutation_ai_patch = empty_patch;
    resolved_non_ai_patch = empty_patch;
    unresolved_patch = empty_patch;
  };
  state = initial;
}

-- a hunk has a line
abbrev pub has_lines : List PatchHunk → Bool
has_lines [] = false
has_lines (hunk ∷ hunks) = if length hunk.lines == 0 then has_lines hunks else true

-- a set, as a list
unfoldable pub target_paths_of : List PatchFileChange → List String
unfolding contains
target_paths_of [] = []
target_paths_of (file ∷ files) =
    let rest = target_paths_of files in
    let path = logical_path file in
    if has_lines file.hunks && not (contains path rest) then path ∷ rest else rest

abbrev pub target_logical_paths : ParsedPatch → List String
unfolding target_paths_of
target_logical_paths target = target_paths_of target.files

-- the revision of the last row of a page that starts with `row`
abbrev pub last_revision : MutationEventPageRow → List MutationEventPageRow → ℕ
last_revision row [] = row.revision
last_revision row (next ∷ rows) = last_revision next rows

abbrev pub Window : Type 0
Window = Result Failure (List MutationEventPageRow × ReplayState)

-- the loop, before the rows are reversed
unfoldable pub load_pages :
    ℕ
    → MutationEventPageSource
    → WorktreeId
    → Option ℕ
    → List MutationEventPageRow
    → ReplayState
    → Window
load_pages zero source worktree cursor rows state = err out_of_fuel
load_pages (suc fuel) source worktree cursor rows state =
    let want = min mutation_attribution_page_size (max_mutation_attribution_events - length rows) in
    if not (ltb (length rows) max_mutation_attribution_events)
    then ok (rows, state)
    else elim (source.load_mutation_event_page worktree cursor want) [
      | none ↦ ok (rows, record state { barrier = some page_query })
      | some [] ↦ ok (rows, state)
      | some (row ∷ more) ↦
          let page = row ∷ more in
          let next = record state {
            loaded_pages = state.loaded_pages + 1;
            loaded_rows = state.loaded_rows + length page;
          } in
          let rest =
            load_pages fuel source worktree (some (last_revision row more)) (rows ++ page) next in
          if ltb (length page) want then ok (rows ++ page, next) else rest
    ]

-- `checked_add(1)` of the ceiling
abbrev pub first_cursor : Option ℕ → Option ℕ
first_cursor none = none
first_cursor (some ceiling) = if ltb ceiling u64_max then some (ceiling + 1) else none

unfoldable pub load_event_window :
    MutationEventPageSource → WorktreeId → Option ℕ → ReplayState → Window
unfolding load_pages
load_event_window source worktree revision_ceiling state =
    load_pages (suc max_mutation_attribution_events) source worktree (first_cursor revision_ceiling)
      [] state
    >>= λ r. ok (reverse r.0, r.1)
