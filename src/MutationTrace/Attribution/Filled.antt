-- ===== src/MutationTrace/Attribution/Filled.antt =====
-- Which lines a patch restricted with provenance has, with their sessions.
use shared_context_engineeri.Common.{
  ℕ, ◌+◌, ◌≡◌, refl, Option, none, some, List, [], ◌∷◌, ◌++◌, lookup, arith,
}
use shared_context_engineeri.Patch.{TouchedLine, PatchHunk, PatchFileChange, ParsedPatch}
use shared_context_engineeri.MutationTrace.Attribution.{
  location_eq, PatchLineProvenance, Provenances, lines_with_provenance, agreed_model,
  hunks_with_provenance, files_with_provenance, patch_for_locations_with_provenance,
}
use shared_context_engineeri.MutationTrace.Attribution.Selected.{
  Located, located_lines, located_hunks, located_files, lines_of_hunks, lines_of_files,
  lines_of-hunk_with, lines_of-file_with,
}

abbrev pub filled_line :
    Option PatchLineProvenance → TouchedLine → List TouchedLine → List TouchedLine
filled_line none line rest = rest
filled_line (some provenance) line rest = record line { session_id = provenance.session_id } ∷ rest

-- the lines at the selected locations, with the sessions that go with them
unfoldable pub filled : Provenances → List Located → List TouchedLine
unfolding lookup
filled selected [] = []
filled selected (x ∷ xs) = filled_line (lookup x.0 selected) x.1 (filled selected xs)

filled-append :
    (selected : Provenances) (xs ys : List Located)
    → filled selected (xs ++ ys) ≡ filled selected xs ++ filled selected ys
unfolding filled
filled-append selected [] ys = refl
filled-append selected (x ∷ xs) ys = ground (arith, filled-append selected xs ys)

lines_with_provenance-filled :
    (selected : Provenances) (f h l : ℕ) (lines : List TouchedLine)
    → lines_with_provenance selected f h l lines ≡ filled selected (located_lines f h l lines)
unfolding lines_with_provenance filled
lines_with_provenance-filled selected f h l [] = refl
lines_with_provenance-filled selected f h l (line ∷ lines) =
    ground (arith, lines_with_provenance-filled selected f h (l + 1) lines)

hunks_with_provenance-filled :
    (selected : Provenances) (f h : ℕ) (hunks : List PatchHunk)
    → lines_of_hunks (hunks_with_provenance selected f h hunks)
      ≡ filled selected (located_hunks f h hunks)
unfolding hunks_with_provenance filled
hunks_with_provenance-filled selected f h [] = refl
hunks_with_provenance-filled selected f h (hunk ∷ hunks) =
    let with_model = record hunk { model_id = agreed_model selected f h } in
    cc (
      lines_of-hunk_with with_model (lines_with_provenance selected f h 0 hunk.lines)
          (hunks_with_provenance selected f (h + 1) hunks),
      lines_with_provenance-filled selected f h 0 hunk.lines,
      hunks_with_provenance-filled selected f (h + 1) hunks,
      filled-append selected (located_lines f h 0 hunk.lines) (located_hunks f (h + 1) hunks),
    )

files_with_provenance-filled :
    (selected : Provenances) (f : ℕ) (files : List PatchFileChange)
    → lines_of_files (files_with_provenance selected f files)
      ≡ filled selected (located_files f files)
unfolding files_with_provenance filled
files_with_provenance-filled selected f [] = refl
files_with_provenance-filled selected f (file ∷ files) = cc (
  lines_of-file_with file (hunks_with_provenance selected f 0 file.hunks)
      (files_with_provenance selected (f + 1) files),
  hunks_with_provenance-filled selected f 0 file.hunks,
  files_with_provenance-filled selected (f + 1) files,
  filled-append selected (located_hunks f 0 file.hunks) (located_files (f + 1) files),
)

pub patch_for_locations_with_provenance-filled :
    (patch : ParsedPatch) (selected : Provenances)
    → lines_of_files (patch_for_locations_with_provenance patch selected).files
      ≡ filled selected (located_files 0 patch.files)
unfolding patch_for_locations_with_provenance
patch_for_locations_with_provenance-filled patch selected =
    files_with_provenance-filled selected 0 patch.files
