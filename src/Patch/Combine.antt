-- ===== src/Patch/Combine.antt =====
-- cli/src/services/patch.rs: `combine_patches`. A `HashMap` is an association list with one entry
-- for a key, and `file_order` is the order of the entries, since an insertion keeps the place of its
-- key. The sorts leave nothing of the order in which a `HashMap` is read.
pub mod Paths
pub mod Tests
use Prim.Native.Nat.{Ordering, compare}
use Prim.Native.String.{compare as compare_text}
use native.Mathlib.Decide.{ℕ_discrete}
use shared_context_engineeri.Common.Order.{then_with, is_greater}
use shared_context_engineeri.Common.{
  ℕ, String, Option, none, some, List, [], ◌∷◌, ◌++◌, map, lookup, insert, Eq, Bool, true, false,
  String-discrete, string_eq, if◌then◌else◌,
}
use shared_context_engineeri.Patch.{
  FileChangeKind, TouchedLineKind, TouchedLineKind-discrete, TouchedLine, PatchHunk,
  PatchFileChange, ParsedPatch,
}

-- the identity of a touched line
pub record LineIdentity : Type 0 where
  pub kind : TouchedLineKind
  pub line_number : ℕ
  pub content : String

unfoldable pub LineIdentity-discrete : Discrete LineIdentity
LineIdentity-discrete = hlevel (TouchedLineKind-discrete, ℕ_discrete, String-discrete)

instance abbrev pub line_identity_eq : Eq LineIdentity
line_identity_eq = record { dec = LineIdentity-discrete }

pub record HunkGroupKey : Type 0 where
  pub old_start : ℕ
  pub old_count : ℕ
  pub new_start : ℕ
  pub new_count : ℕ
  pub model_id : Option String

unfoldable pub HunkGroupKey-discrete : Discrete HunkGroupKey
HunkGroupKey-discrete = hlevel (ℕ_discrete, String-discrete)

instance abbrev pub hunk_group_key_eq : Eq HunkGroupKey
hunk_group_key_eq = record { dec = HunkGroupKey-discrete }

abbrev pub LineMap : Type 0
LineMap = List (LineIdentity × (TouchedLine × HunkGroupKey))

pub record FileAcc : Type 0 where
  pub old_path : String
  pub kind : FileChangeKind
  pub lines : LineMap

abbrev pub group_key : PatchHunk → HunkGroupKey
group_key hunk = record {
  old_start = hunk.old_start;
  old_count = hunk.old_count;
  new_start = hunk.new_start;
  new_count = hunk.new_count;
  model_id = hunk.model_id;
}

abbrev pub identity_of : TouchedLine → LineIdentity
identity_of line = record {
  kind = line.kind;
  line_number = line.line_number;
  content = line.content;
}

unfoldable pub insert_lines : HunkGroupKey → List TouchedLine → LineMap → LineMap
unfolding insert
insert_lines group [] lines = lines
insert_lines group (line ∷ rest) lines =
    insert_lines group rest (insert (identity_of line) (line, group) lines)

unfoldable pub insert_hunks : List PatchHunk → LineMap → LineMap
unfolding insert_lines
insert_hunks [] lines = lines
insert_hunks (hunk ∷ hunks) lines =
    insert_hunks hunks (insert_lines (group_key hunk) hunk.lines lines)

abbrev pub FileMap : Type 0
FileMap = List (String × FileAcc)

-- the lines that the path has so far
abbrev pub lines_so_far : Option FileAcc → LineMap
lines_so_far none = []
lines_so_far (some acc) = acc.lines

unfoldable pub add_file : PatchFileChange → FileMap → FileMap
unfolding lookup insert insert_hunks
add_file file files =
    let so_far = lines_so_far (lookup file.new_path files) in
    insert file.new_path
      (record {
        old_path = file.old_path;
        kind = file.kind;
        lines = insert_hunks file.hunks so_far;
      })
      files

unfoldable pub add_files : List PatchFileChange → FileMap → FileMap
unfolding add_file
add_files [] files = files
add_files (file ∷ rest) files = add_files rest (add_file file files)

unfoldable pub add_patches : List ParsedPatch → FileMap → FileMap
unfolding add_files
add_patches [] files = files
add_patches (patch ∷ patches) files = add_patches patches (add_files patch.files files)

-- `hunk_groups`
abbrev pub HunkGroups : Type 0
HunkGroups = List (HunkGroupKey × List TouchedLine)

abbrev pub group_so_far : Option (List TouchedLine) → List TouchedLine
group_so_far none = []
group_so_far (some lines) = lines

unfoldable pub group_lines : LineMap → HunkGroups → HunkGroups
unfolding lookup insert
group_lines [] groups = groups
group_lines ((_, (line, group)) ∷ lines) groups =
    group_lines lines (insert group (group_so_far (lookup group groups) ++ line ∷ []) groups)

abbrev pub compare_option : Option String → Option String → Ordering
compare_option none none = Ordering.eq
compare_option none (some _) = Ordering.lt
compare_option (some _) none = Ordering.gt
compare_option (some a) (some b) = compare_text a b

abbrev pub compare_groups : HunkGroupKey → HunkGroupKey → Ordering
compare_groups a b = then_with (compare a.old_start b.old_start) (
    then_with (compare a.old_count b.old_count) (
      then_with (compare a.new_start b.new_start)
        (then_with (compare a.new_count b.new_count) (compare_option a.model_id b.model_id))))

-- a removed line before an added one
abbrev pub kind_order : TouchedLineKind → ℕ
kind_order TouchedLineKind.removed = 0
kind_order TouchedLineKind.added = 1

abbrev pub compare_lines : TouchedLine → TouchedLine → Ordering
compare_lines a b =
    then_with (compare a.line_number b.line_number) (
      then_with (compare (kind_order a.kind) (kind_order b.kind))
        (compare_text a.content b.content))

-- a stable sort
unfoldable pub sort_insert : {A : Type 0} → (A → A → Ordering) → A → List A → List A
sort_insert order x [] = x ∷ []
sort_insert order x (y ∷ ys) =
    let rest = sort_insert order x ys in if is_greater (order x y) then y ∷ rest else x ∷ y ∷ ys

unfoldable pub sort_by : {A : Type 0} → (A → A → Ordering) → List A → List A
unfolding sort_insert
sort_by order [] = []
sort_by order (x ∷ xs) = sort_insert order x (sort_by order xs)

unfoldable pub to_hunk : HunkGroupKey × List TouchedLine → PatchHunk
unfolding sort_by
to_hunk (key, lines) = record {
  old_start = key.old_start;
  old_count = key.old_count;
  new_start = key.new_start;
  new_count = key.new_count;
  model_id = key.model_id;
  lines = sort_by compare_lines lines;
}

unfoldable pub to_file : String × FileAcc → PatchFileChange
unfolding group_lines sort_by to_hunk
to_file (path, acc) = record {
  old_path = acc.old_path;
  new_path = path;
  kind = acc.kind;
  hunks = map to_hunk (sort_by (λ a b. compare_groups a.0 b.0) (group_lines acc.lines []));
}

unfoldable pub combine_patches : List ParsedPatch → ParsedPatch
unfolding add_patches to_file
combine_patches patches = record { files = map to_file (add_patches patches []) }
