-- ===== src/MutationTrace/Lineage.antt =====
-- cli/src/services/mutation_trace/lineage.rs: the provenance of the lines of the tracked files, and
-- one hunk. `usize` has 64 bits. A sum of two `usize` that overflows ends in a panic in every
-- build: by the check, or by the slice that the wrapped sum bounds.
pub mod Hunk
pub mod Files
pub mod Effects
pub mod History
pub mod Tests
use Prim.Native.Nat.{◌%◌}
use shared_context_engineeri.Common.{
  ℕ, zero, suc, ◌+◌, ◌-◌, String, Bool, true, false, not, Option, none, some, List, [], ◌∷◌, ◌++◌,
  length, get_elem?, slice, filter, ltb, leb, ◌==◌, ◌!=◌, ◌&&◌, if◌then◌else◌, lookup, insert,
  contains, nat_eq, string_eq,
}
use shared_context_engineeri.Common.Outcome.{Outcome, ok, err, panicked, ◌>>=◌, ◌>>◌, ok_or, ensure}
use shared_context_engineeri.Patch.{TouchedLineKind, touched_line_kind_eq, TouchedLine, PatchHunk}
use shared_context_engineeri.MutationTrace.Types.{ScopeId}

pub data LineProvenance : Type 0 where
  unknown : LineProvenance
  mutation_ai : ScopeId → LineProvenance
  mutation_non_ai : LineProvenance

pub data TransitionOrigin : Type 0 where
  mutation_ai : ScopeId → TransitionOrigin
  mutation_non_ai : TransitionOrigin
  unobserved : TransitionOrigin

unfoldable pub added_provenance : TransitionOrigin → LineProvenance
added_provenance (TransitionOrigin.mutation_ai scope) = LineProvenance.mutation_ai scope
added_provenance TransitionOrigin.mutation_non_ai = LineProvenance.mutation_non_ai
added_provenance unobserved = unknown

pub record LineageError : Type 0 where
  pub path : String
  pub reason : String

pub record ProvenanceLine : Type 0 where
  pub content : String
  pub provenance : LineProvenance

abbrev pub usize_max : ℕ
usize_max = 18446744073709551615

abbrev pub u64_max : ℕ
u64_max = 18446744073709551615

-- `usize::try_from`, with the error that `map_err` gives
abbrev pub try_usize : ℕ → LineageError → Outcome LineageError ℕ
try_usize n e = if leb n usize_max then ok n else err e

-- `a + b` on `usize`
abbrev pub add_usize : ℕ → ℕ → Outcome LineageError ℕ
add_usize a b = if leb (a + b) usize_max then ok (a + b) else panicked

-- the closure `fail`
abbrev pub fail : String → String → LineageError
fail path reason = record { path = path; reason = reason }

unfoldable pub prefix_end : String → ℕ → PatchHunk → Outcome LineageError ℕ
prefix_end path old_count hunk =
    try_usize hunk.old_start (fail path "old_start overflow") >>= λ start.
    if old_count == 0
    then ok start
    else if leb 1 start
    then ok (start - 1)
    else err (fail path "old_start below 1 for a non-empty hunk")

-- the offset of a removed line in the old region: `checked_sub`, `try_from` and `filter`
abbrev pub removed_offset : PatchHunk → ℕ → TouchedLine → Option ℕ
removed_offset hunk old_count line =
    if leb hunk.old_start line.line_number && ltb (line.line_number - hunk.old_start) old_count
    then some (line.line_number - hunk.old_start)
    else none

-- `region[offset]`
abbrev pub line_of_region : List ProvenanceLine → ℕ → Outcome LineageError ProvenanceLine
line_of_region region offset = elim (get_elem? region offset) [
  | none ↦ panicked
  | some line ↦ ok line
]

-- the loop over the removed lines, which collects `removed_indices`
unfoldable pub remove_lines :
    String
    → PatchHunk
    → ℕ
    → List ProvenanceLine
    → List TouchedLine
    → List ℕ
    → Outcome LineageError (List ℕ)
unfolding contains
remove_lines path hunk old_count region [] indices = ok indices
remove_lines path hunk old_count region (line ∷ rest) indices =
    elim (removed_offset hunk old_count line) [
      | none ↦ err (fail path "removed line falls outside the hunk old region")
      | some offset ↦ elim (line_of_region region offset) [
        | err e ↦ err e
        | panicked ↦ panicked
        | ok old_line ↦
            if old_line.content != line.content
            then err (fail path "removed line content does not match the tracked line")
            else let later = remove_lines path hunk old_count region rest (offset ∷ indices) in
              if contains offset indices
              then err (fail path "the same old line is removed twice")
              else later
      ]
    ]

-- the lines of the region from `index` on that are not removed
unfoldable pub carried_from : ℕ → List ℕ → List ProvenanceLine → List ProvenanceLine
unfolding contains
carried_from index indices [] = []
carried_from index indices (line ∷ region) =
    let rest = carried_from (index + 1) indices region in
    if contains index indices then rest else line ∷ rest

-- `added_by_number`: a later line of a number replaces an earlier one
unfoldable pub number_lines : List TouchedLine → List (ℕ × String) → List (ℕ × String)
unfolding insert
number_lines [] numbered = numbered
number_lines (line ∷ rest) numbered =
    number_lines rest (insert line.line_number line.content numbered)

abbrev pub added_line : TransitionOrigin → String → ProvenanceLine
added_line origin content = record { content = content; provenance = added_provenance origin }

-- The loop over the positions of the new region: `count` of them are left, and the lines that it
-- pushes are the result. `carried` stands in file order, so `pop` takes its first line.
unfoldable pub place_lines :
    String
    → PatchHunk
    → TransitionOrigin
    → List (ℕ × String)
    → ℕ
    → ℕ
    → List ProvenanceLine
    → Outcome LineageError (List ProvenanceLine)
unfolding lookup added_provenance
place_lines path hunk origin numbered zero position [] = ok []
place_lines path hunk origin numbered zero position (_ ∷ _) =
    err (fail path "carried context lines left unplaced")
place_lines path hunk origin numbered (suc count) position carried =
    let line_number = hunk.new_start + position in
    if ltb u64_max line_number
    then err (fail path "new line number overflow")
    else elim (lookup line_number numbered) [
      | some content ↦
          place_lines path hunk origin numbered count (position + 1) carried >>= λ pushed.
          ok (added_line origin content ∷ pushed)
      | none ↦ elim carried [
        | [] ↦ err (fail path "ran out of carried context lines")
        | line ∷ rest ↦
            place_lines path hunk origin numbered count (position + 1) rest >>= λ pushed.
            ok (line ∷ pushed)
      ]
    ]

abbrev pub removed_lines : PatchHunk → List TouchedLine
removed_lines hunk = filter (λ line. line.kind == TouchedLineKind.removed) hunk.lines

abbrev pub added_lines : PatchHunk → List TouchedLine
added_lines hunk = filter (λ line. line.kind == TouchedLineKind.added) hunk.lines

-- From the region on: what the hunk turns the region into.
unfoldable pub replace_region :
    String
    → PatchHunk
    → TransitionOrigin
    → ℕ
    → ℕ
    → List ProvenanceLine
    → Outcome LineageError (List ProvenanceLine)
unfolding filter
replace_region path hunk origin old_count new_count region = do
  let removed = removed_lines hunk
  let added = added_lines hunk
  ensure (leb (length removed) old_count)
      (fail path "more removed lines than the hunk's old region")
  ensure (leb (length added) new_count) (fail path "more added lines than the hunk's new region")
  ensure (new_count - length added == old_count - length removed)
      (fail path "hunk context lengths are inconsistent")
  removed_indices ← remove_lines path hunk old_count region removed []
  let numbered = number_lines added []
  ensure (length numbered == length added) (fail path "two added lines share a line number")
  place_lines path hunk origin numbered new_count 0 (carried_from 0 removed_indices region)

-- the new cursor, and `new` with the lines that the hunk pushes
unfoldable pub apply_one_hunk :
    String
    → List ProvenanceLine
    → PatchHunk
    → TransitionOrigin
    → List ProvenanceLine
    → ℕ
    → Outcome LineageError (ℕ × List ProvenanceLine)
apply_one_hunk path old hunk origin new cursor = do
  old_count ← try_usize hunk.old_count (fail path "old_count overflow")
  new_count ← try_usize hunk.new_count (fail path "new_count overflow")
  start ← prefix_end path old_count hunk
  ensure (leb cursor start) (fail path "hunks overlap or are out of order")
  ensure (leb start (length old)) (fail path "hunk starts past end of file")
  end ← add_usize start old_count
  ensure (leb end (length old)) (fail path "hunk old region extends past end of file")
  pushed ← replace_region path hunk origin old_count new_count (slice start end old)
  ok (end, new ++ (slice cursor start old ++ pushed))
