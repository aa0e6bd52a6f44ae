-- ===== src/Patch/Intersect/Once.antt =====
-- Each line of the constructed patch is used once at most.
use shared_context_engineeri.Common.{
  ℕ, ◌+◌, ◌≤◌, ◌≡◌, refl, String, Bool, true, false, Option, none, some, List, [], ◌∷◌, ◌++◌, arith,
  Option-cases, Bool-cases, inl, inr, nat_eq, string_eq,
}
use shared_context_engineeri.Patch.{
  TouchedLineKind, touched_line_kind_eq, TouchedLine, PatchHunk, PatchFileChange,
}
use shared_context_engineeri.Patch.Intersect.{
  AvailableTouchedLine, Available, find_available_line_match, match_line, overlapping_lines,
  or_model, matched_hunk, result_hunks, available_of, available_lines, intersect_file,
  touched_lines_match_exact, touched_lines_match_historical,
}

abbrev pub one : Bool → ℕ
one true = 1
one false = 0

-- the number of lines with a property
abbrev pub count : (TouchedLine → Bool) → List TouchedLine → ℕ
count t [] = 0
count t (line ∷ lines) = one (t line) + count t lines

abbrev pub count_hunks : (TouchedLine → Bool) → List PatchHunk → ℕ
count_hunks t [] = 0
count_hunks t (hunk ∷ hunks) = count t hunk.lines + count_hunks t hunks

abbrev pub count_files : (TouchedLine → Bool) → List PatchFileChange → ℕ
count_files t [] = 0
count_files t (file ∷ files) = count_hunks t file.hunks + count_files t files

-- a property of a line's kind, content and session
abbrev pub of_source : (TouchedLineKind → String → Option String → Bool) → TouchedLine → Bool
of_source q line = q line.kind line.content line.session_id

-- a property of a line's kind, number and content
abbrev pub of_place : (TouchedLineKind → ℕ → String → Bool) → TouchedLine → Bool
of_place q line = q line.kind line.line_number line.content

abbrev with_session : TouchedLine → AvailableTouchedLine → TouchedLine
with_session target found = record target { session_id = found.line.session_id }

module _ (q : TouchedLineKind → String → Option String → Bool) where
  -- the number of unused lines with the property
  abbrev unused : Available → ℕ
  unused [] = 0
  unused ((_, true) ∷ rest) = unused rest
  unused ((candidate, false) ∷ rest) = one (of_source q candidate.line) + unused rest

  abbrev UnusedFound : TouchedLine → Option (AvailableTouchedLine × Available) → ℕ → Type 0
  UnusedFound target none n = Unit
  UnusedFound target (some (found, marked)) n =
      one (of_source q (with_session target found)) + unused marked ≡ n

  find-unused :
      (matcher : TouchedLine → TouchedLine → Bool) (target : TouchedLine) (available : Available)
      → ((c : TouchedLine)
          → matcher c target ≡ true
          → (c.kind ≡ target.kind) × (c.content ≡ target.content))
      → UnusedFound target (find_available_line_match matcher target available) (unused available)
  unfolding find_available_line_match
  find-unused matcher target [] says = tt
  find-unused matcher target ((candidate, true) ∷ rest) says =
      ground (arith, find-unused matcher target rest says)
  find-unused matcher target ((candidate, false) ∷ rest) says =
      elim (Bool-cases (matcher candidate.line target)) [
        | inl hit ↦ ground (arith, hit, says candidate.line hit)
        | inr miss ↦ ground (arith, miss, find-unused matcher target rest says)
      ]

  match_line-unused :
      (target : TouchedLine) (available : Available)
      → UnusedFound target (match_line target available) (unused available)
  unfolding match_line
  match_line-unused target available = ground (
    arith,
    find-unused touched_lines_match_exact target available (λ c e. ground arith),
    find-unused touched_lines_match_historical target available (λ c e. ground arith),
  )

  overlapping_lines-count :
      (lines : List TouchedLine) (model : Option String) (available : Available)
      → let r = overlapping_lines lines model available in
        count (of_source q) r.0 + unused r.1.1 ≡ unused available
  unfolding overlapping_lines
  overlapping_lines-count [] model available = omega arith
  overlapping_lines-count (line ∷ lines) model available =
      elim (Option-cases (match_line line available)) [
        | inl e ↦ ground (arith, overlapping_lines-count lines model available)
        | inr ((found, marked), e) ↦ ground (
          arith,
          match_line-unused line available,
          overlapping_lines-count lines (or_model model found.model_id) marked,
        )
      ]

  unused-append : (a b : Available) → unused (a ++ b) ≡ unused a + unused b
  unused-append [] b = omega arith
  unused-append ((line, true) ∷ a) b = unused-append a b
  unused-append ((line, false) ∷ a) b = omega (arith, unused-append a b)

  unused-available_of :
      (hunk : PatchHunk) (lines : List TouchedLine)
      → unused (available_of hunk lines) ≡ count (of_source q) lines
  unused-available_of hunk [] = refl
  unused-available_of hunk (line ∷ lines) = omega (arith, unused-available_of hunk lines)

  unused-available_lines :
      (hunks : List PatchHunk) → unused (available_lines hunks) ≡ count_hunks (of_source q) hunks
  unfolding available_lines
  unused-available_lines [] = refl
  unused-available_lines (hunk ∷ hunks) = omega (
    arith,
    unused-append (available_of hunk hunk.lines) (available_lines hunks),
    unused-available_of hunk hunk.lines,
    unused-available_lines hunks,
  )

overlapping_lines-place :
    (q : TouchedLineKind → ℕ → String → Bool) (lines : List TouchedLine) (model : Option String)
    (available : Available)
    → count (of_place q) (overlapping_lines lines model available).0 ≤ count (of_place q) lines
unfolding overlapping_lines
overlapping_lines-place q [] model available = omega arith
overlapping_lines-place q (line ∷ lines) model available =
    elim (Option-cases (match_line line available)) [
      | inl e ↦ ground (arith, overlapping_lines-place q lines model available)
      | inr ((found, marked), e) ↦
          ground (arith, overlapping_lines-place q lines (or_model model found.model_id) marked)
    ]

count_hunks-matched_hunk :
    (t : TouchedLine → Bool) (hunk : PatchHunk) (lines : List TouchedLine) (model : Option String)
    (hunks : List PatchHunk)
    → count_hunks t (matched_hunk hunk lines model ++ hunks) ≡ count t lines + count_hunks t hunks
count_hunks-matched_hunk t hunk [] model hunks = omega arith
count_hunks-matched_hunk t hunk (line ∷ lines) model hunks = omega arith

result_hunks-count :
    (q : TouchedLineKind → String → Option String → Bool) (p : TouchedLineKind → ℕ → String → Bool)
    (hunks : List PatchHunk) (available : Available)
    → let r = result_hunks hunks available in
      (count_hunks (of_source q) r ≤ unused q available)
      × (count_hunks (of_place p) r ≤ count_hunks (of_place p) hunks)
unfolding result_hunks
result_hunks-count q p [] available = (omega arith, omega arith)
result_hunks-count q p (hunk ∷ hunks) available =
    let matched = overlapping_lines hunk.lines none available in
    let rest = result_hunks hunks matched.1.1 in
    let later = result_hunks-count q p hunks matched.1.1 in
    (
      omega (
        arith,
        count_hunks-matched_hunk (of_source q) hunk matched.0 matched.1.0 rest,
        overlapping_lines-count q hunk.lines none available,
        later.0,
      ),
      omega (
        arith,
        count_hunks-matched_hunk (of_place p) hunk matched.0 matched.1.0 rest,
        overlapping_lines-place p hunk.lines none available,
        later.1,
      ),
    )

-- For every property of a line's kind, content and session, the intersection of two files has at
-- most as many lines with it as the constructed file, so that no line is used twice; and for every
-- property of a line's kind, number and content, at most as many as the file of the commit, so that
-- no line is added.
pub intersect_file-count :
    (constructed_file post_commit_file : PatchFileChange)
    (q : TouchedLineKind → String → Option String → Bool) (p : TouchedLineKind → ℕ → String → Bool)
    → let r = intersect_file constructed_file post_commit_file in
      (count_files (of_source q) r ≤ count_hunks (of_source q) constructed_file.hunks)
      × (count_files (of_place p) r ≤ count_hunks (of_place p) post_commit_file.hunks)
unfolding intersect_file
intersect_file-count constructed_file post_commit_file q p = ground (
  arith,
  result_hunks-count q p post_commit_file.hunks (available_lines constructed_file.hunks),
  unused-available_lines q constructed_file.hunks,
)
