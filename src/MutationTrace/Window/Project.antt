-- ===== src/MutationTrace/Window/Project.antt =====
-- The lines of the target, sorted by what the lineage says of them.
use shared_context_engineeri.Common.{
  ℕ, ◌+◌, String, Option, none, some, List, [], ◌∷◌, ◌++◌, ◌!=◌, if◌then◌else◌,
}
use shared_context_engineeri.Patch.{
  TouchedLineKind, touched_line_kind_eq, TouchedLine, PatchHunk, PatchFileChange, ParsedPatch,
}
use shared_context_engineeri.MutationTrace.Equality.{tree_id_eq, failure_kind_eq}
use shared_context_engineeri.MutationTrace.Lineage.{LineProvenance, unknown}
use shared_context_engineeri.MutationTrace.Lineage.Files.{
  MutationLineage, logical_path, provenance_at,
}
use shared_context_engineeri.MutationTrace.Attribution.{
  PatchLineLocation, at, PatchLineProvenance, Provenances, patch_for_locations,
  patch_for_locations_with_provenance,
}
use shared_context_engineeri.MutationTrace.Window.{
  ScopeProvenance, MutationEventPageSource, MutationAttributionResult,
}

-- the provenance by which `project` sorts a line: a line that is not added stays unresolved
unfoldable pub line_provenance : MutationLineage → String → TouchedLine → LineProvenance
unfolding provenance_at
line_provenance m path line =
    if line.kind != TouchedLineKind.added
    then unknown
    else provenance_at m path line.line_number line.content

abbrev pub Sorted : Type 0
Sorted = List (PatchLineLocation × LineProvenance)

unfoldable pub project_lines : MutationLineage → String → ℕ → ℕ → ℕ → List TouchedLine → Sorted
unfolding line_provenance
project_lines m path f h l [] = []
project_lines m path f h l (line ∷ lines) =
    (at f h l, line_provenance m path line) ∷ project_lines m path f h (l + 1) lines

unfoldable pub project_hunks : MutationLineage → String → ℕ → ℕ → List PatchHunk → Sorted
unfolding project_lines
project_hunks m path f h [] = []
project_hunks m path f h (hunk ∷ hunks) =
    project_lines m path f h 0 hunk.lines ++ project_hunks m path f (h + 1) hunks

unfoldable pub project_files : MutationLineage → ℕ → List PatchFileChange → Sorted
unfolding project_hunks
project_files m f [] = []
project_files m f (file ∷ files) =
    project_hunks m (logical_path file) f 0 file.hunks ++ project_files m (f + 1) files

-- the locations of a kind of lines
unfoldable pub non_ai : Sorted → List PatchLineLocation
non_ai [] = []
non_ai ((location, LineProvenance.mutation_non_ai) ∷ sorted) = location ∷ non_ai sorted
non_ai ((location, LineProvenance.mutation_ai scope_id) ∷ sorted) = non_ai sorted
non_ai ((location, unknown) ∷ sorted) = non_ai sorted

unfoldable pub unresolved : Sorted → List PatchLineLocation
unresolved [] = []
unresolved ((location, unknown) ∷ sorted) = location ∷ unresolved sorted
unresolved ((location, LineProvenance.mutation_ai scope_id) ∷ sorted) = unresolved sorted
unresolved ((location, LineProvenance.mutation_non_ai) ∷ sorted) = unresolved sorted

-- what is known of a scope
abbrev pub provenance_of_scope : Option (Option ScopeProvenance) → PatchLineProvenance
provenance_of_scope (some (some value)) = record {
  session_id = some value.session_id;
  model_id = value.model_id;
}
provenance_of_scope (some none) = record { session_id = none; model_id = none }
provenance_of_scope none = record { session_id = none; model_id = none }

unfoldable pub ai_with_provenance : MutationEventPageSource → Sorted → Provenances
ai_with_provenance source [] = []
ai_with_provenance source ((location, LineProvenance.mutation_ai scope_id) ∷ sorted) =
    (location, provenance_of_scope (source.load_scope_provenance scope_id))
    ∷ ai_with_provenance source sorted
ai_with_provenance source ((location, LineProvenance.mutation_non_ai) ∷ sorted) =
    ai_with_provenance source sorted
ai_with_provenance source ((location, unknown) ∷ sorted) = ai_with_provenance source sorted

unfoldable pub project :
    MutationEventPageSource → ParsedPatch → MutationLineage → MutationAttributionResult
unfolding project_files ai_with_provenance non_ai unresolved patch_for_locations
    patch_for_locations_with_provenance
project source target m =
    let sorted = project_files m 0 target.files in
    record {
      mutation_ai_patch =
          patch_for_locations_with_provenance target (ai_with_provenance source sorted);
      resolved_non_ai_patch = patch_for_locations target (non_ai sorted);
      unresolved_patch = patch_for_locations target (unresolved sorted);
    }
