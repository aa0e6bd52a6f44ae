-- ===== src/MutationTrace/Attribution/Tests.antt =====
-- A patch of one hunk with three lines, of which two are selected.
use shared_context_engineeri.Common.{
  ℕ, ◌≡◌, refl, String, none, some, List, [], ◌∷◌, contains, lookup, filter, String-discrete,
}
use native.Mathlib.Decide.{ℕ_discrete}
use shared_context_engineeri.Patch.{
  FileChangeKind, TouchedLineKind, TouchedLineKind-discrete, TouchedLine, ParsedPatch,
}
use shared_context_engineeri.MutationTrace.Attribution.{
  PatchLineLocation, PatchLineLocation-discrete, at, lines_for, hunks_for, files_for,
  patch_for_locations, Provenances, agreed_from, agreed_model, LineKey-discrete,
  exclude_direct_coverage,
}
use shared_context_engineeri.MutationTrace.Attribution.Uncovered.Lines.{
  exclude_direct_coverage-lines,
}
use shared_context_engineeri.MutationTrace.Attribution.Selected.{lines_of_files}

machinery : Unit {0}
unfolding contains lookup String-discrete ℕ_discrete PatchLineLocation-discrete lines_for hunks_for
    files_for patch_for_locations agreed_from agreed_model
machinery = tt

abbrev line : String → ℕ → TouchedLine
line content n = record {
  kind = TouchedLineKind.added;
  line_number = n;
  content = content;
  session_id = none;
}

abbrev patch : ParsedPatch
patch = record {
  files =
      record {
        old_path = "f";
        new_path = "f";
        kind = FileChangeKind.modified;
        hunks =
            record {
              old_start = 0;
              old_count = 0;
              new_start = 1;
              new_count = 3;
              model_id = none;
              lines = line "a" 1 ∷ line "b" 2 ∷ line "c" 3 ∷ [];
            }
            ∷ [];
      }
      ∷ [];
}

abbrev selected : List PatchLineLocation
selected = at 0 0 2 ∷ at 0 0 0 ∷ []

abbrev provenances : Provenances
provenances =
    (at 0 0 0, record { session_id = none; model_id = some "m" })
    ∷ (at 0 0 2, record { session_id = some "s"; model_id = some "m" })
    ∷ (at 0 1 0, record { session_id = none; model_id = none })
    ∷ []

agreed : agreed_model provenances 0 0 ≡ some "m"
unfolding machinery
agreed = refl

abbrev coverage : ParsedPatch
coverage = record {
  files =
      record {
        old_path = "f";
        new_path = "f";
        kind = FileChangeKind.modified;
        hunks =
            record {
              old_start = 1;
              old_count = 0;
              new_start = 2;
              new_count = 1;
              model_id = none;
              lines = line "b" 2 ∷ [];
            }
            ∷ [];
      }
      ∷ [];
}

exclude_direct_coverage-lines_example :
    (result : ParsedPatch) × (exclude_direct_coverage patch coverage ≡ some result)
    × (lines_of_files result.files ≡ line "a" 1 ∷ line "c" 3 ∷ [])
unfolding machinery LineKey-discrete TouchedLineKind-discrete filter
exclude_direct_coverage-lines_example = exclude_direct_coverage-lines patch coverage
