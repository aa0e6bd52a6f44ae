-- ===== src/Patch/Intersect.antt =====
-- cli/src/services/patch.rs: `intersect_patches`. The components of a path, which the standard
-- library's `Path::components` splits off, are a parameter. The two vectors `available_lines` and
-- `used_lines` are one list, in which each line stands with its flag; a match is found and its flag
-- set at once.
pub mod Once
pub mod Matched
pub mod Tests
use shared_context_engineeri.Common.{
  ℕ, zero, suc, ◌+◌, String, Bool, true, false, not, Option, none, some, List, [], ◌∷◌, ◌++◌, map,
  length, ltb, leb, ◌==◌, ◌&&◌, ◌||◌, nat_eq, string_eq, if◌then◌else◌,
}
use shared_context_engineeri.Patch.{
  TouchedLineKind, touched_line_kind_eq, TouchedLine, PatchHunk, PatchFileChange, ParsedPatch,
}

pub record AvailableTouchedLine : Type 0 where
  pub line : TouchedLine
  pub model_id : Option String

-- a line and whether it is used
abbrev pub Available : Type 0
Available = List (AvailableTouchedLine × Bool)

abbrev pub touched_lines_match_exact : TouchedLine → TouchedLine → Bool
touched_lines_match_exact candidate target =
    candidate.kind == target.kind
    && candidate.line_number == target.line_number
    && candidate.content == target.content

abbrev pub touched_lines_match_historical : TouchedLine → TouchedLine → Bool
touched_lines_match_historical candidate target =
    candidate.kind == target.kind && candidate.content == target.content

-- the first unused line that matches, and the lines with its flag set
unfoldable pub find_available_line_match :
    (TouchedLine → TouchedLine → Bool)
    → TouchedLine
    → Available
    → Option (AvailableTouchedLine × Available)
find_available_line_match matcher target [] = none
find_available_line_match matcher target ((candidate, used) ∷ rest) =
    let later = find_available_line_match matcher target rest in
    if not used && matcher candidate.line target
    then some (candidate, (candidate, true) ∷ rest)
    else elim later [
      | none ↦ none
      | some (found, marked) ↦ some (found, (candidate, used) ∷ marked)
    ]

-- an exact match, or else a historical one
unfoldable pub match_line : TouchedLine → Available → Option (AvailableTouchedLine × Available)
unfolding find_available_line_match
match_line target available =
    elim (find_available_line_match touched_lines_match_exact target available) [
      | some found ↦ some found
      | none ↦ find_available_line_match touched_lines_match_historical target available
    ]

-- `if matched_model_id.is_none() { … }`
abbrev pub or_model : Option String → Option String → Option String
or_model none model = model
or_model (some matched) model = some matched

-- `filter_map` over the lines of a hunk: the lines, the model and the flags
unfoldable pub overlapping_lines :
    List TouchedLine → Option String → Available → List TouchedLine × (Option String × Available)
unfolding match_line
overlapping_lines [] model available = ([], (model, available))
overlapping_lines (line ∷ lines) model available = elim (match_line line available) [
  | none ↦ overlapping_lines lines model available
  | some (found, marked) ↦
      let rest = overlapping_lines lines (or_model model found.model_id) marked in
      (record line { session_id = found.line.session_id } ∷ rest.0, rest.1)
]

abbrev pub matched_hunk : PatchHunk → List TouchedLine → Option String → List PatchHunk
matched_hunk hunk [] model = []
matched_hunk hunk (line ∷ lines) model = record hunk { model_id = model; lines = line ∷ lines } ∷ []

-- the loop over the hunks of a file
unfoldable pub result_hunks : List PatchHunk → Available → List PatchHunk
unfolding overlapping_lines
result_hunks [] available = []
result_hunks (hunk ∷ hunks) available =
    let matched = overlapping_lines hunk.lines none available in
    matched_hunk hunk matched.0 matched.1.0 ++ result_hunks hunks matched.1.1

abbrev pub available_of : PatchHunk → List TouchedLine → Available
available_of hunk [] = []
available_of hunk (line ∷ lines) =
    (record { line = line; model_id = hunk.model_id }, false) ∷ available_of hunk lines

-- `available_lines`, with no line used
unfoldable pub available_lines : List PatchHunk → Available
available_lines [] = []
available_lines (hunk ∷ hunks) = available_of hunk hunk.lines ++ available_lines hunks

abbrev pub is_empty {ℓ} : {A : Type ℓ} → List A → Bool
is_empty [] = true
is_empty (_ ∷ _) = false

unfoldable pub starts_with : List String → List String → Bool
starts_with [] full = true
starts_with (x ∷ xs) [] = false
starts_with (x ∷ xs) (y ∷ ys) = let rest = starts_with xs ys in x == y && rest

-- `full.ends_with(suffix)`: some tail of the list is the suffix
unfoldable pub ends_with : List String → List String → Bool
unfolding starts_with
ends_with [] suffix = is_empty suffix
ends_with (x ∷ full) suffix =
    let later = ends_with full suffix in
    (length (x ∷ full) == length suffix && starts_with suffix (x ∷ full)) || later

abbrev pub path_has_relative_suffix : List String → List String → Bool
path_has_relative_suffix full_path suffix_candidate =
    ltb (length suffix_candidate) (length full_path)
    && ends_with full_path suffix_candidate
    && not (is_empty suffix_candidate)

-- a file of the post-commit patch against the file of the constructed one
unfoldable pub intersect_file : PatchFileChange → PatchFileChange → List PatchFileChange
unfolding result_hunks available_lines
intersect_file constructed_file post_commit_file =
    let hunks = result_hunks post_commit_file.hunks (available_lines constructed_file.hunks) in
    if is_empty hunks && not (is_empty post_commit_file.hunks && is_empty constructed_file.hunks)
    then []
    else record post_commit_file { hunks = hunks } ∷ []

module _ (normalized_path_components : String → List String) where
  unfoldable pub paths_refer_to_same_file : String → String → Bool
  unfolding ends_with
  paths_refer_to_same_file path_a path_b =
      let a = normalized_path_components path_a in
      let b = normalized_path_components path_b in
      if path_a == path_b
      then true
      else if is_empty a || is_empty b
      then false
      else path_has_relative_suffix a b || path_has_relative_suffix b a

  unfoldable pub find_file : String → List PatchFileChange → Option PatchFileChange
  unfolding paths_refer_to_same_file
  find_file new_path [] = none
  find_file new_path (file ∷ files) =
      let later = find_file new_path files in
      if paths_refer_to_same_file file.new_path new_path then some file else later

  unfoldable pub intersect_files :
      List PatchFileChange → List PatchFileChange → List PatchFileChange
  unfolding find_file intersect_file
  intersect_files constructed [] = []
  intersect_files constructed (file ∷ files) =
      let rest = intersect_files constructed files in
      elim (find_file file.new_path constructed) [
        | none ↦ rest
        | some constructed_file ↦ intersect_file constructed_file file ++ rest
      ]

  unfoldable pub intersect_patches : ParsedPatch → ParsedPatch → ParsedPatch
  unfolding intersect_files
  intersect_patches constructed_patch post_commit_patch = record {
    files = intersect_files constructed_patch.files post_commit_patch.files;
  }
