-- ===== src/Patch/Parse/Tests.antt =====
-- A small diff: a modified file, an added one, and one with a removed SQL comment.
use native.Mathlib.Decide.{ℕ_discrete}
use shared_context_engineeri.Common.{
  ◌≡◌, ◌⊎◌, refl, String, false, none, some, List, [], ◌∷◌, arith, String-discrete, string_eq,
}
use shared_context_engineeri.Common.Text.{
  is_whitespace, strip_prefix, trim_start, trim_end, split_at, first_word, after_word, digits_from,
  parse_u64, to_text, lines_from,
}
use shared_context_engineeri.Patch.{FileChangeKind, PatchFileChange, ParsedPatch}
use shared_context_engineeri.Patch.Parse.{
  ParseError, ok, err, FileBuilder, new_file, infer_file_kind_from_hunks, determine_file_kind,
  build, parse_git_diff_header, parse_diff_path, is_boundary, body_line, parse_body,
  parse_range_part, parse_hunk_header, parse_hunk_header_and_body, other_line, path_line, round,
  parse_from, parse_patch,
}
use shared_context_engineeri.Patch.Parse.Body.{
  BodyLine, context, added, removed, touched, parse_body-print_line, parse_body-dashes,
}
use shared_context_engineeri.Patch.Parse.Total.{is_out_of_fuel, parse_patch-total}

abbrev diff : String
diff =
    "diff --git a/x.rs b/x.rs\nindex 1..2 100644\n--- a/x.rs\n+++ b/x.rs\n@@ -1,2 +1,2 @@\n a\n-b\n+c\ndiff --git a/n b/n\nnew file mode 100644\n--- /dev/null\n+++ b/n\n@@ -0,0 +1 @@\n+d\n"

abbrev changed : List BodyLine
changed = context "a" ∷ removed "b" ∷ added "c" ∷ []

abbrev modified_file : PatchFileChange
modified_file = record {
  old_path = "x.rs";
  new_path = "x.rs";
  kind = FileChangeKind.modified;
  hunks =
      record {
        old_start = 1;
        old_count = 2;
        new_start = 1;
        new_count = 2;
        model_id = none;
        lines = touched none 1 1 changed;
      }
      ∷ [];
}

abbrev added_file : PatchFileChange
added_file = record {
  old_path = "";
  new_path = "n";
  kind = FileChangeKind.added;
  hunks =
      record {
        old_start = 0;
        old_count = 0;
        new_start = 1;
        new_count = 1;
        model_id = none;
        lines = touched none 0 1 (added "d" ∷ []);
      }
      ∷ [];
}

abbrev parsed : ParsedPatch
parsed = record { files = modified_file ∷ added_file ∷ [] }

parse_patch-diff : parse_patch diff none ≡ ok parsed
unfolding ℕ_discrete String-discrete is_whitespace strip_prefix trim_start trim_end split_at
    first_word after_word digits_from parse_u64 to_text lines_from infer_file_kind_from_hunks
    determine_file_kind build parse_git_diff_header parse_diff_path is_boundary body_line parse_body
    parse_range_part parse_hunk_header parse_hunk_header_and_body other_line path_line round
    parse_from parse_patch
parse_patch-diff = refl

parse_patch-total_example :
    ((patch : ParsedPatch) × (parse_patch diff none ≡ ok patch))
    ⊎ ((e : ParseError) × (parse_patch diff none ≡ err e) × (is_out_of_fuel e ≡ false))
parse_patch-total_example = parse_patch-total diff none

parse_body-print_line_example :
    parse_body none (1, 1) (" a" ∷ "-b" ∷ "+c" ∷ "diff --git a/n b/n" ∷ [])
    ≡ (touched none 1 1 changed, "diff --git a/n b/n" ∷ [])
unfolding ℕ_discrete is_boundary strip_prefix
parse_body-print_line_example =
    parse_body-print_line none changed ("diff --git a/n b/n" ∷ []) 1 1 (refl, (refl, (refl, tt)))
      refl (omega arith) (omega arith)

abbrev sql_file : FileBuilder
sql_file = new_file "q.sql" "q.sql"

parse_body-dashes_example :
    (parse_body none (1, 1) (" a" ∷ "--- drop" ∷ "+c" ∷ []) ≡ ([], "--- drop" ∷ "+c" ∷ []))
    × (round none (some sql_file) "--- drop" ("+c" ∷ [])
        ≡ ok ([], (some (record sql_file { old_path = parse_diff_path "drop" }), "+c" ∷ [])))
unfolding ℕ_discrete strip_prefix
parse_body-dashes_example =
    parse_body-dashes none (context "a" ∷ []) "-- drop" "drop" ("+c" ∷ []) 1 1 sql_file (refl, tt)
      refl (omega arith) (omega arith)
