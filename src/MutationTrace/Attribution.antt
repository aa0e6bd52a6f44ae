-- ===== src/MutationTrace/Attribution.antt =====
-- cli/src/services/mutation_trace/attribution.rs: a patch restricted to a set of its lines.
-- `enumerate` is an index that the recursion passes on; a set of locations is a list.
pub mod Selected
pub mod Filled
pub mod Model
pub mod Uncovered
pub mod Tests
use shared_context_engineeri.Common.{
  ℕ, ◌+◌, Bool, true, false, Option, none, some, List, [], ◌∷◌, String, lookup, ◌==◌, ◌!=◌, ◌||◌,
  nat_eq, string_eq, contains, Eq, if◌then◌else◌, map, ◌++◌, get_elem?, ◌>>=◌, String-discrete,
}
use shared_context_engineeri.MutationTrace.Lineage.Files.{logical_path}
use native.Mathlib.Decide.{ℕ_discrete}
use shared_context_engineeri.Patch.{
  TouchedLineKind, TouchedLineKind-discrete, TouchedLine, PatchHunk, PatchFileChange, ParsedPatch,
}

pub record PatchLineLocation : Type 0 where
  pub file_index : ℕ
  pub hunk_index : ℕ
  pub line_index : ℕ

unfoldable pub PatchLineLocation-discrete : Discrete PatchLineLocation
PatchLineLocation-discrete = hlevel ℕ_discrete

instance abbrev pub location_eq : Eq PatchLineLocation
location_eq = record { dec = PatchLineLocation-discrete }

abbrev pub at : ℕ → ℕ → ℕ → PatchLineLocation
at f h l = record { file_index = f; hunk_index = h; line_index = l }

-- `filter_map` over the lines of a hunk, from an index on
unfoldable pub lines_for : List PatchLineLocation → ℕ → ℕ → ℕ → List TouchedLine → List TouchedLine
unfolding contains
lines_for selected f h l [] = []
lines_for selected f h l (line ∷ lines) =
    let rest = lines_for selected f h (l + 1) lines in
    if contains (at f h l) selected then line ∷ rest else rest

-- `(!lines.is_empty()).then(…)`
abbrev pub hunk_with : PatchHunk → List TouchedLine → Option PatchHunk
hunk_with hunk [] = none
hunk_with hunk (line ∷ lines) = some (record hunk { lines = line ∷ lines })

unfoldable pub hunks_for : List PatchLineLocation → ℕ → ℕ → List PatchHunk → List PatchHunk
unfolding lines_for
hunks_for selected f h [] = []
hunks_for selected f h (hunk ∷ hunks) =
    let rest = hunks_for selected f (h + 1) hunks in
    elim (hunk_with hunk (lines_for selected f h 0 hunk.lines)) [
      | none ↦ rest
      | some kept ↦ kept ∷ rest
    ]

abbrev pub file_with : PatchFileChange → List PatchHunk → Option PatchFileChange
file_with file [] = none
file_with file (hunk ∷ hunks) = some (record file { hunks = hunk ∷ hunks })

unfoldable pub files_for : List PatchLineLocation → ℕ → List PatchFileChange → List PatchFileChange
unfolding hunks_for
files_for selected f [] = []
files_for selected f (file ∷ files) =
    let rest = files_for selected (f + 1) files in
    elim (file_with file (hunks_for selected f 0 file.hunks)) [
      | none ↦ rest
      | some kept ↦ kept ∷ rest
    ]

unfoldable pub patch_for_locations : ParsedPatch → List PatchLineLocation → ParsedPatch
unfolding files_for
patch_for_locations patch selected = record { files = files_for selected 0 patch.files }

pub record PatchLineProvenance : Type 0 where
  pub session_id : Option String
  pub model_id : Option String

-- a `BTreeMap` in the order of its keys
abbrev pub Provenances : Type 0
Provenances = List (PatchLineLocation × PatchLineProvenance)

unfoldable pub lines_with_provenance : Provenances → ℕ → ℕ → ℕ → List TouchedLine → List TouchedLine
unfolding lookup
lines_with_provenance selected f h l [] = []
lines_with_provenance selected f h l (line ∷ lines) =
    let rest = lines_with_provenance selected f h (l + 1) lines in
    elim (lookup (at f h l) selected) [
      | none ↦ rest
      | some provenance ↦ record line { session_id = provenance.session_id } ∷ rest
    ]

-- the loop of `agreed_model`; `model` is the model of the entries of the hunk so far
unfoldable pub agreed_from : Option String → Provenances → ℕ → ℕ → Option String
agreed_from model [] f h = model
agreed_from model ((location, provenance) ∷ selected) f h =
    let skipped = agreed_from model selected f h in
    let first : String → Option String = λ candidate. agreed_from (some candidate) selected f h in
    if location.file_index != f || location.hunk_index != h
    then skipped
    else elim provenance.model_id [
      | none ↦ none
      | some candidate ↦ elim model [
        | none ↦ first candidate
        | some existing ↦ if existing == candidate then skipped else none
      ]
    ]

unfoldable pub agreed_model : Provenances → ℕ → ℕ → Option String
unfolding agreed_from
agreed_model selected f h = agreed_from none selected f h

unfoldable pub hunks_with_provenance : Provenances → ℕ → ℕ → List PatchHunk → List PatchHunk
unfolding lines_with_provenance agreed_model
hunks_with_provenance selected f h [] = []
hunks_with_provenance selected f h (hunk ∷ hunks) =
    let rest = hunks_with_provenance selected f (h + 1) hunks in
    let with_model = record hunk { model_id = agreed_model selected f h } in
    elim (hunk_with with_model (lines_with_provenance selected f h 0 hunk.lines)) [
      | none ↦ rest
      | some kept ↦ kept ∷ rest
    ]

unfoldable pub files_with_provenance : Provenances → ℕ → List PatchFileChange → List PatchFileChange
unfolding hunks_with_provenance
files_with_provenance selected f [] = []
files_with_provenance selected f (file ∷ files) =
    let rest = files_with_provenance selected (f + 1) files in
    elim (file_with file (hunks_with_provenance selected f 0 file.hunks)) [
      | none ↦ rest
      | some kept ↦ kept ∷ rest
    ]

unfoldable pub patch_for_locations_with_provenance : ParsedPatch → Provenances → ParsedPatch
unfolding files_with_provenance
patch_for_locations_with_provenance patch selected = record {
  files = files_with_provenance selected 0 patch.files;
}

-- the key of a line: the path of its file, its kind, its number and its content
pub record LineKey : Type 0 where
  pub path : String
  pub kind : TouchedLineKind
  pub line_number : ℕ
  pub content : String

unfoldable pub LineKey-discrete : Discrete LineKey
LineKey-discrete = hlevel (TouchedLineKind-discrete, ℕ_discrete, String-discrete)

instance abbrev pub line_key_eq : Eq LineKey
line_key_eq = record { dec = LineKey-discrete }

abbrev pub line_key : PatchFileChange → TouchedLine → LineKey
line_key file line = record {
  path = logical_path file;
  kind = line.kind;
  line_number = line.line_number;
  content = line.content;
}

abbrev pub hunk_keys : PatchFileChange → List PatchHunk → List LineKey
hunk_keys file [] = []
hunk_keys file (hunk ∷ hunks) = map (line_key file) hunk.lines ++ hunk_keys file hunks

-- `direct_line_keys`
abbrev pub direct_line_keys : List PatchFileChange → List LineKey
direct_line_keys [] = []
direct_line_keys (file ∷ files) = hunk_keys file file.hunks ++ direct_line_keys files

-- `all_locations`, in their order
abbrev pub line_locations : ℕ → ℕ → ℕ → List TouchedLine → List PatchLineLocation
line_locations f h l [] = []
line_locations f h l (line ∷ lines) = at f h l ∷ line_locations f h (l + 1) lines

abbrev pub hunk_locations : ℕ → ℕ → List PatchHunk → List PatchLineLocation
hunk_locations f h [] = []
hunk_locations f h (hunk ∷ hunks) =
    line_locations f h 0 hunk.lines ++ hunk_locations f (h + 1) hunks

abbrev pub all_locations : ℕ → List PatchFileChange → List PatchLineLocation
all_locations f [] = []
all_locations f (file ∷ files) = hunk_locations f 0 file.hunks ++ all_locations (f + 1) files

-- `line_at`, with the line's file; an index out of range is a panic
abbrev pub line_at :
    List PatchFileChange → PatchLineLocation → Option (PatchFileChange × TouchedLine)
line_at files location = do
  file ← get_elem? files location.file_index
  hunk ← get_elem? file.hunks location.hunk_index
  line ← get_elem? hunk.lines location.line_index
  some (file, line)

-- the filter of `exclude_direct_coverage`
unfoldable pub uncovered :
    List LineKey → List PatchFileChange → List PatchLineLocation → Option (List PatchLineLocation)
unfolding contains
uncovered direct_lines files [] = some []
uncovered direct_lines files (location ∷ locations) =
    let rest = uncovered direct_lines files locations in
    line_at files location >>= λ found. rest >>= λ more.
    some (if contains (line_key found.0 found.1) direct_lines then more else location ∷ more)

unfoldable pub exclude_direct_coverage : ParsedPatch → ParsedPatch → Option ParsedPatch
unfolding uncovered patch_for_locations
exclude_direct_coverage target_patch direct_coverage =
    uncovered (direct_line_keys direct_coverage.files) target_patch.files
      (all_locations 0 target_patch.files)
    >>= λ selected. some (patch_for_locations target_patch selected)
