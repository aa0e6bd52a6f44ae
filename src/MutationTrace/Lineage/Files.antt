-- ===== src/MutationTrace/Lineage/Files.antt =====
-- cli/src/services/mutation_trace/lineage.rs: the tracked files. `BTreeMap` is an association list.
pub mod Sound
use Prim.Native.Char.{Char, code}
use Prim.Native.String
use shared_context_engineeri.Common.{
  ℕ, zero, suc, ◌+◌, ◌-◌, String, Bool, true, false, not, Option, none, some, List, [], ◌∷◌, ◌++◌,
  length, get_elem?, drop, map, ltb, leb, ◌==◌, ◌!=◌, ◌&&◌, ◌||◌, if◌then◌else◌, lookup, insert,
  remove, contains_key, nat_eq, string_eq,
}
use shared_context_engineeri.Common.Outcome.{Outcome, ok, err, panicked, ◌>>=◌}
use shared_context_engineeri.Common.Text.{lines_from}
use shared_context_engineeri.Patch.{PatchHunk, PatchFileChange, ParsedPatch}
use shared_context_engineeri.MutationTrace.Lineage.{
  LineProvenance, unknown, TransitionOrigin, LineageError, ProvenanceLine, apply_one_hunk,
}

-- the stable sort of `sort_by_key` on `(old_start, new_start)`
abbrev pub starts_before : PatchHunk → PatchHunk → Bool
starts_before a b =
    ltb a.old_start b.old_start || a.old_start == b.old_start && ltb a.new_start b.new_start

unfoldable pub insert_hunk : PatchHunk → List PatchHunk → List PatchHunk
insert_hunk hunk [] = hunk ∷ []
insert_hunk hunk (h ∷ hunks) =
    if starts_before h hunk then h ∷ insert_hunk hunk hunks else hunk ∷ h ∷ hunks

unfoldable pub sort_hunks : List PatchHunk → List PatchHunk
unfolding insert_hunk
sort_hunks [] = []
sort_hunks (hunk ∷ hunks) = insert_hunk hunk (sort_hunks hunks)

-- the loop over the sorted hunks, then `new.extend_from_slice(&old[cursor..])`
unfoldable pub apply_sorted :
    String
    → List ProvenanceLine
    → TransitionOrigin
    → List PatchHunk
    → List ProvenanceLine
    → ℕ
    → Outcome LineageError (List ProvenanceLine)
unfolding apply_one_hunk
apply_sorted path old origin [] new cursor = ok (new ++ drop cursor old)
apply_sorted path old origin (hunk ∷ hunks) new cursor =
    apply_one_hunk path old hunk origin new cursor >>= λ r.
    apply_sorted path old origin hunks r.1 r.0

unfoldable pub apply_hunks :
    String
    → List ProvenanceLine
    → PatchFileChange
    → TransitionOrigin
    → Outcome LineageError (List ProvenanceLine)
unfolding sort_hunks apply_sorted
apply_hunks path old file origin = apply_sorted path old origin (sort_hunks file.hunks) [] 0

pub record MutationLineage : Type 0 where
  pub files : List (String × List ProvenanceLine)

-- `String::is_empty`
abbrev pub is_empty : String → Bool
is_empty s = s == ""

abbrev pub logical_path : PatchFileChange → String
logical_path file = if is_empty file.new_path then file.old_path else file.new_path

abbrev pub unwrap_or {ℓ} : {A : Type ℓ} → Option A → A → A
unwrap_or none a = a
unwrap_or (some b) a = b

-- the lines before the change: of the old path, or of the new one
unfoldable pub old_lines : MutationLineage → PatchFileChange → List ProvenanceLine
unfolding lookup
old_lines m file = elim (lookup file.old_path m.files) [
  | some lines ↦ lines
  | none ↦ if is_empty file.new_path then [] else unwrap_or (lookup file.new_path m.files) []
]

abbrev pub tracks : MutationLineage → String → Bool
tracks m path = not (is_empty path) && contains_key path m.files

-- the two writes to the map
unfoldable pub write_lines :
    MutationLineage → PatchFileChange → List ProvenanceLine → MutationLineage
unfolding remove insert
write_lines m file new =
    let without = if is_empty file.old_path then m.files else remove file.old_path m.files in
    record { files = if is_empty file.new_path then without else insert file.new_path new without }

unfoldable pub apply_file :
    MutationLineage → PatchFileChange → TransitionOrigin → Outcome LineageError MutationLineage
unfolding contains_key old_lines apply_hunks write_lines
apply_file m file origin =
    if not (tracks m file.old_path) && not (tracks m file.new_path)
    then ok m
    else apply_hunks (logical_path file) (old_lines m file) file origin >>= λ new.
        ok (write_lines m file new)

-- `apply` writes in place: after an error the files before it stay applied.
unfoldable pub apply_files :
    MutationLineage
    → List PatchFileChange
    → TransitionOrigin
    → MutationLineage × Outcome LineageError (Unit {0})
unfolding apply_file
apply_files m [] origin = (m, ok tt)
apply_files m (file ∷ files) origin = elim (apply_file m file origin) [
  | ok m' ↦ apply_files m' files origin
  | err e ↦ (m, err e)
  | panicked ↦ (m, panicked)
]

unfoldable pub apply :
    MutationLineage
    → ParsedPatch
    → TransitionOrigin
    → MutationLineage × Outcome LineageError (Unit {0})
unfolding apply_files
apply m patch origin = apply_files m patch.files origin

unfoldable pub unknown_lines : Option String → List ProvenanceLine
unfolding lines_from
unknown_lines none = []
unknown_lines (some text) =
    map (λ line. record { content = line; provenance = unknown }) (lines_from [] text)

unfoldable pub baseline_files : List (String × Option String) → List (String × List ProvenanceLine)
unfolding unknown_lines
baseline_files files = map (λ f. (f.0, unknown_lines f.1)) files

unfoldable pub from_baseline : List (String × Option String) → MutationLineage
unfolding baseline_files
from_baseline files = record { files = baseline_files files }

unfoldable pub reset_all : MutationLineage → List (String × Option String) → MutationLineage
unfolding baseline_files
reset_all m files = record m { files = baseline_files files }

-- the line at an index, if its content is the one that is asked about
abbrev pub provenance_of : String → Option ProvenanceLine → LineProvenance
provenance_of content none = unknown
provenance_of content (some line) = if line.content == content then line.provenance else unknown

unfoldable pub provenance_at : MutationLineage → String → ℕ → String → LineProvenance
unfolding lookup
provenance_at m path line_number content = elim (lookup path m.files) [
  | none ↦ unknown
  | some lines ↦
      if leb 1 line_number
      then provenance_of content (get_elem? lines (line_number - 1))
      else unknown
]
