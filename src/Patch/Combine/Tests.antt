-- ===== src/Patch/Combine/Tests.antt =====
-- Two patches that each delete a file.
use native.Mathlib.Decide.{ℕ_discrete}
use shared_context_engineeri.Common.{
  ◌≡◌, refl, String, true, none, List, [], ◌∷◌, lookup, insert, contains, String-discrete,
  string_eq,
}
use shared_context_engineeri.Common.Distinct.{is_distinct}
use shared_context_engineeri.Patch.{
  FileChangeKind, TouchedLineKind, TouchedLineKind-discrete, TouchedLine, ParsedPatch,
}
use shared_context_engineeri.Patch.Combine.{
  LineIdentity-discrete, HunkGroupKey-discrete, insert_lines, insert_hunks, add_file, add_files,
  add_patches, group_lines, sort_insert, sort_by, to_hunk, to_file, combine_patches,
}
use shared_context_engineeri.Patch.Combine.Paths.{paths, combine_patches-paths}

abbrev removed_line : String → TouchedLine
removed_line content = record {
  kind = TouchedLineKind.removed;
  line_number = 1;
  content = content;
  session_id = none;
}

abbrev deleting : String → List TouchedLine → ParsedPatch
deleting path lines = record {
  files =
      record {
        old_path = path;
        new_path = "";
        kind = FileChangeKind.deleted;
        hunks =
            record {
              old_start = 1;
              old_count = 1;
              new_start = 0;
              new_count = 0;
              model_id = none;
              lines = lines;
            }
            ∷ [];
      }
      ∷ [];
}

abbrev first : ParsedPatch
first = deleting "a" (removed_line "x" ∷ [])

abbrev second : ParsedPatch
second = deleting "b" (removed_line "y" ∷ [])

-- the line of the file `a` is given to the file `b`
deletions_merge :
    combine_patches (first ∷ second ∷ []) ≡ deleting "b" (removed_line "x" ∷ removed_line "y" ∷ [])
unfolding ℕ_discrete String-discrete TouchedLineKind-discrete LineIdentity-discrete
    HunkGroupKey-discrete lookup insert insert_lines insert_hunks add_file add_files add_patches
    group_lines sort_insert sort_by to_hunk to_file combine_patches
deletions_merge = refl

combine_patches-paths_example :
    (is_distinct (paths (combine_patches (first ∷ second ∷ [])).files) ≡ true)
    × (contains "" (paths (combine_patches (first ∷ second ∷ [])).files) ≡ true)
unfolding contains String-discrete
combine_patches-paths_example = combine_patches-paths (first ∷ second ∷ []) ""
