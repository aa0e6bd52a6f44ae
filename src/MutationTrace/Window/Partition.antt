-- ===== src/MutationTrace/Window/Partition.antt =====
-- How the lines of the target are divided.
use mathlib.Core.List.{map-append}
use shared_context_engineeri.Common.{
  ℕ, ◌+◌, ◌≡◌, refl, ◌∙◌, ap, Bool, true, false, List, [], ◌∷◌, map, filter, arith,
}
use shared_context_engineeri.Patch.{TouchedLine, PatchHunk, PatchFileChange, ParsedPatch}
use shared_context_engineeri.MutationTrace.Lineage.{LineProvenance, unknown}
use shared_context_engineeri.MutationTrace.Lineage.Files.{MutationLineage, logical_path}
use shared_context_engineeri.MutationTrace.Attribution.{
  PatchLineLocation, location_eq, at, patch_for_locations,
}
use shared_context_engineeri.MutationTrace.Attribution.Selected.{lines_of_files}
use shared_context_engineeri.MutationTrace.Attribution.Uncovered.{
  FileLine, Entry, entries, line_entries, hunk_entries, file_lines,
}
use shared_context_engineeri.MutationTrace.Attribution.Uncovered.Lines.{
  locations, kept, patch_for_locations-kept,
}
use shared_context_engineeri.MutationTrace.Window.{MutationEventPageSource}
use shared_context_engineeri.MutationTrace.Window.Project.{
  line_provenance, Sorted, project_lines, project_hunks, project_files, non_ai, unresolved, project,
}

-- the provenance that the lineage gives a line of a file
abbrev pub found_at : MutationLineage → FileLine → LineProvenance
found_at m x = line_provenance m (logical_path x.0) x.1

abbrev pub sorted : MutationLineage → List Entry → Sorted
sorted m es = map {B = PatchLineLocation × LineProvenance} (λ (e : Entry). (e.0, found_at m e.1)) es

project_lines-eq :
    (m : MutationLineage) (file : PatchFileChange) (f h l : ℕ) (lines : List TouchedLine)
    → project_lines m (logical_path file) f h l lines ≡ sorted m (line_entries file f h l lines)
unfolding project_lines
project_lines-eq m file f h l [] = refl
project_lines-eq m file f h l (line ∷ lines) =
    ap (λ r. (at f h l, found_at m (file, line)) ∷ r) (project_lines-eq m file f h (l + 1) lines)

project_hunks-eq :
    (m : MutationLineage) (file : PatchFileChange) (f h : ℕ) (hunks : List PatchHunk)
    → project_hunks m (logical_path file) f h hunks ≡ sorted m (hunk_entries file f h hunks)
unfolding project_hunks
project_hunks-eq m file f h [] = refl
project_hunks-eq m file f h (hunk ∷ hunks) = cc (
  map-append {B = PatchLineLocation × LineProvenance} (λ (e : Entry). (e.0, found_at m e.1))
      (line_entries file f h 0 hunk.lines) (hunk_entries file f (h + 1) hunks),
  project_lines-eq m file f h 0 hunk.lines,
  project_hunks-eq m file f (h + 1) hunks,
)

pub project_files-eq :
    (m : MutationLineage) (f : ℕ) (files : List PatchFileChange)
    → project_files m f files ≡ sorted m (entries f files)
unfolding project_files
project_files-eq m f [] = refl
project_files-eq m f (file ∷ files) = cc (
  map-append {B = PatchLineLocation × LineProvenance} (λ (e : Entry). (e.0, found_at m e.1))
      (hunk_entries file f 0 file.hunks) (entries (f + 1) files),
  project_hunks-eq m file f 0 file.hunks,
  project_files-eq m (f + 1) files,
)

abbrev pub is_ai : LineProvenance → Bool
is_ai (LineProvenance.mutation_ai _) = true
is_ai LineProvenance.mutation_non_ai = false
is_ai unknown = false

abbrev pub is_non_ai : LineProvenance → Bool
is_non_ai (LineProvenance.mutation_ai _) = false
is_non_ai LineProvenance.mutation_non_ai = true
is_non_ai unknown = false

abbrev pub is_unknown : LineProvenance → Bool
is_unknown (LineProvenance.mutation_ai _) = false
is_unknown LineProvenance.mutation_non_ai = false
is_unknown unknown = true

-- the lines of the target that the lineage gives such a provenance, in order
abbrev pub lines_with : (LineProvenance → Bool) → MutationLineage → ParsedPatch → List TouchedLine
lines_with p m target = map (λ x. x.1) (filter (λ x. p (found_at m x)) (file_lines target.files))

abbrev firsts : Sorted → List PatchLineLocation
firsts s = map (λ (x : PatchLineLocation × LineProvenance). x.0) s

abbrev having : (LineProvenance → Bool) → Sorted → Sorted
having p s = filter (λ (x : PatchLineLocation × LineProvenance). p x.1) s

firsts-sorted :
    (p : LineProvenance → Bool) (m : MutationLineage) (es : List Entry)
    → firsts (having p (sorted m es)) ≡ locations (kept (λ x. p (found_at m x)) es)
unfolding filter
firsts-sorted p m [] = refl
firsts-sorted p m (e ∷ es) = ground (arith, firsts-sorted p m es)

non_ai-eq : (s : Sorted) → non_ai s ≡ firsts (having is_non_ai s)
unfolding non_ai filter
non_ai-eq [] = refl
non_ai-eq ((location, LineProvenance.mutation_ai scope_id) ∷ s) = non_ai-eq s
non_ai-eq ((location, LineProvenance.mutation_non_ai) ∷ s) = ap (λ r. location ∷ r) (non_ai-eq s)
non_ai-eq ((location, unknown) ∷ s) = non_ai-eq s

unresolved-eq : (s : Sorted) → unresolved s ≡ firsts (having is_unknown s)
unfolding unresolved filter
unresolved-eq [] = refl
unresolved-eq ((location, LineProvenance.mutation_ai scope_id) ∷ s) = unresolved-eq s
unresolved-eq ((location, LineProvenance.mutation_non_ai) ∷ s) = unresolved-eq s
unresolved-eq ((location, unknown) ∷ s) = ap (λ r. location ∷ r) (unresolved-eq s)

-- the lines of the two patches of lines of no agent
pub project-others :
    (source : MutationEventPageSource) (target : ParsedPatch) (m : MutationLineage)
    → (lines_of_files (project source target m).resolved_non_ai_patch.files
        ≡ lines_with is_non_ai m target)
      × (lines_of_files (project source target m).unresolved_patch.files
          ≡ lines_with is_unknown m target)
unfolding project
project-others source target m =
    let s = project_files m 0 target.files in
    let es = entries 0 target.files in
    let at_places : (p : LineProvenance → Bool)
        → lines_of_files (patch_for_locations target (firsts (having p s))).files
          ≡ lines_with p m target =
      λ p.
        ap (λ q. lines_of_files (patch_for_locations target q).files)
          (ap (λ q. firsts (having p q)) (project_files-eq m 0 target.files) ∙ firsts-sorted p m es)
        ∙ patch_for_locations-kept (λ x. p (found_at m x)) target in
    (
      ap (λ q. lines_of_files (patch_for_locations target q).files) (non_ai-eq s)
          ∙ at_places is_non_ai,
      ap (λ q. lines_of_files (patch_for_locations target q).files) (unresolved-eq s)
          ∙ at_places is_unknown,
    )
