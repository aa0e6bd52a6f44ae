-- ===== src/Patch/Intersect/Tests.antt =====
-- A line of a constructed patch that the commit has at another line number, and one that it has not.
use shared_context_engineeri.Common.{
  ℕ, ◌≡◌, ◌≤◌, refl, String, Option, none, some, List, [], ◌∷◌, ◌==◌, string_eq, Bool, ◌&&◌, nat_eq,
  if◌then◌else◌, String-discrete,
}
use native.Mathlib.Decide.{ℕ_discrete}
use shared_context_engineeri.Patch.{
  FileChangeKind, TouchedLineKind, TouchedLineKind-discrete, TouchedLine, PatchFileChange,
}
use shared_context_engineeri.Patch.Intersect.{
  find_available_line_match, match_line, overlapping_lines, result_hunks, available_lines,
  starts_with, ends_with, paths_refer_to_same_file, find_file, intersect_file, intersect_files,
  intersect_patches,
}
use shared_context_engineeri.Patch.Intersect.Once.{
  count_files, of_source, of_place, intersect_file-count,
}

machinery : Unit {0}
unfolding String-discrete ℕ_discrete TouchedLineKind-discrete find_available_line_match match_line
    overlapping_lines result_hunks available_lines starts_with ends_with paths_refer_to_same_file
    find_file intersect_file intersect_files intersect_patches
machinery = tt

abbrev line : Option String → String → ℕ → TouchedLine
line session content n = record {
  kind = TouchedLineKind.added;
  line_number = n;
  content = content;
  session_id = session;
}

abbrev file : String → Option String → List TouchedLine → PatchFileChange
file path model lines = record {
  old_path = path;
  new_path = path;
  kind = FileChangeKind.modified;
  hunks =
      record {
        old_start = 1;
        old_count = 0;
        new_start = 1;
        new_count = 2;
        model_id = model;
        lines = lines;
      }
      ∷ [];
}

abbrev constructed : PatchFileChange
constructed = file "/repo/f" (some "m") (line (some "s") "a" 7 ∷ line (some "s") "b" 8 ∷ [])

abbrev committed : PatchFileChange
committed = file "f" none (line none "a" 1 ∷ line none "a" 2 ∷ [])

-- what `Path::components` gives for the two paths
abbrev components : String → List String
components path = if path == "f" then "f" ∷ [] else "repo" ∷ "f" ∷ []

once :
    intersect_patches components
      (record { files = constructed ∷ [] })
      (record { files = committed ∷ [] })
    ≡ record { files = file "f" (some "m") (line (some "s") "a" 1 ∷ []) ∷ [] }
unfolding machinery
once = refl

-- the commit has the line "a" twice, of which the constructed file has one
abbrev is_a : TouchedLineKind → String → Option String → Bool
is_a kind content session = content == "a"

abbrev is_first_a : TouchedLineKind → ℕ → String → Bool
is_first_a kind n content = content == "a" && n == 1

intersect_file-count_example :
    (count_files (of_source is_a) (intersect_file constructed committed) ≤ 1)
    × (count_files (of_place is_first_a) (intersect_file constructed committed) ≤ 1)
unfolding machinery
intersect_file-count_example = intersect_file-count constructed committed is_a is_first_a
