-- ===== src/Patch/Parse/File.antt =====
-- cli/src/services/patch.rs: the file that `parse_patch` builds, its kind and its paths.
use shared_context_engineeri.Common.{
  String, Bool, true, Option, none, some, List, [], ◌∷◌, ◌==◌, ◌!=◌, ◌&&◌, ◌||◌, if◌then◌else◌,
  nat_eq, string_eq,
}
use shared_context_engineeri.Common.Text.{
  is_empty, strip_prefix, strip_or_same, trim, trim_end, split_at,
}
use shared_context_engineeri.Patch.{FileChangeKind, PatchHunk, PatchFileChange}

pub record FileBuilder : Type 0 where
  pub old_path : String
  pub new_path : String
  pub kind : Option FileChangeKind
  pub hunks : List PatchHunk

abbrev pub new_file : String → String → FileBuilder
new_file old_path new_path = record {
  old_path = old_path;
  new_path = new_path;
  kind = none;
  hunks = [];
}

abbrev pub all_hunks : (PatchHunk → Bool) → List PatchHunk → Bool
all_hunks p [] = true
all_hunks p (hunk ∷ hunks) = p hunk && all_hunks p hunks

unfoldable pub infer_file_kind_from_hunks : List PatchHunk → Option FileChangeKind
infer_file_kind_from_hunks [] = none
infer_file_kind_from_hunks (hunk ∷ hunks) =
    if all_hunks (λ h. h.old_start == 0 && h.old_count == 0) (hunk ∷ hunks)
    then some FileChangeKind.added
    else if all_hunks (λ h. h.new_start == 0 && h.new_count == 0) (hunk ∷ hunks)
    then some FileChangeKind.deleted
    else none

unfoldable pub determine_file_kind : String → String → FileChangeKind
determine_file_kind old_path new_path =
    if old_path == "/dev/null" || is_empty old_path
    then FileChangeKind.added
    else if new_path == "/dev/null" || is_empty new_path
    then FileChangeKind.deleted
    else if old_path != new_path
    then FileChangeKind.renamed
    else FileChangeKind.modified

abbrev pub normalize_paths_for_kind : String → String → FileChangeKind → String × String
normalize_paths_for_kind old_path new_path FileChangeKind.added = ("", new_path)
normalize_paths_for_kind old_path new_path FileChangeKind.deleted = (old_path, "")
normalize_paths_for_kind old_path new_path _ = (old_path, new_path)

abbrev pub unwrap_or : {A : Type 0} → Option A → A → A
unwrap_or none a = a
unwrap_or (some b) a = b

abbrev pub inferred_kind : FileBuilder → FileChangeKind
inferred_kind fb =
    unwrap_or fb.kind (
      unwrap_or (infer_file_kind_from_hunks fb.hunks) (determine_file_kind fb.old_path fb.new_path))

unfoldable pub build : FileBuilder → PatchFileChange
unfolding infer_file_kind_from_hunks determine_file_kind
build fb =
    let kind = inferred_kind fb in
    let (old_path, new_path) = normalize_paths_for_kind fb.old_path fb.new_path kind in
    record { old_path = old_path; new_path = new_path; kind = kind; hunks = fb.hunks }

-- the old and the new path of a `diff --git` line
unfoldable pub parse_git_diff_header : String → String × String
unfolding split_at strip_prefix
parse_git_diff_header rest = elim (split_at " b/" rest) [
  | some (before, after) ↦ (strip_or_same "a/" before, strip_or_same "b/" after)
  | none ↦ (trim rest, trim rest)
]

unfoldable pub parse_diff_path : String → String
unfolding trim_end strip_prefix
parse_diff_path rest =
    let trimmed = trim_end rest in
    if trimmed == "/dev/null" then "" else elim (strip_prefix "a/" trimmed) [
      | some stripped ↦ stripped
      | none ↦ strip_or_same "b/" trimmed
    ]
