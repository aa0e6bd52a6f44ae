-- ===== src/MutationTrace/Lineage/Hunk.antt =====
-- What one hunk does to the lines, apart from how the code computes it.
pub mod Place
pub mod Remove
pub mod Correct
pub mod Sources
use shared_context_engineeri.Common.{
  ℕ, ◌+◌, ◌-◌, ◌≤◌, ◌≡◌, String, Bool, false, Option, none, some, List, [], ◌∷◌, ◌++◌, length,
  slice, ◌==◌, ◌||◌, if◌then◌else◌, nat_eq,
}
use shared_context_engineeri.Patch.{TouchedLine, PatchHunk}
use shared_context_engineeri.MutationTrace.Lineage.{
  TransitionOrigin, ProvenanceLine, added_line, removed_lines, added_lines,
}

-- the content that the lines give to a line number, or `other`
abbrev pub content_at : ℕ → List TouchedLine → Option String → Option String
content_at n [] other = other
content_at n (line ∷ lines) other =
    content_at n lines (if line.line_number == n then some line.content else other)

abbrev pub has_number : ℕ → List TouchedLine → Bool
has_number n [] = false
has_number n (line ∷ lines) = line.line_number == n || has_number n lines

-- what the hunk adds at a position of its new region
abbrev pub added_at : PatchHunk → ℕ → Option String
added_at hunk position = content_at (hunk.new_start + position) (added_lines hunk) none

-- The lines of the new region that the hunk does not add.
abbrev pub kept_after : (ℕ → Option String) → ℕ → List ProvenanceLine → List ProvenanceLine
kept_after added position [] = []
kept_after added position (line ∷ out) =
    let rest = kept_after added (position + 1) out in
    elim (added position) [ some _ ↦ rest | none ↦ line ∷ rest ]

-- The lines of the old region that the hunk does not remove.
abbrev pub kept_before : PatchHunk → ℕ → List ProvenanceLine → List ProvenanceLine
kept_before hunk index [] = []
kept_before hunk index (line ∷ region) =
    let rest = kept_before hunk (index + 1) region in
    if has_number (hunk.old_start + index) (removed_lines hunk) then rest else line ∷ rest

-- Each position that the hunk adds holds its content, with the transition's provenance.
abbrev pub AddedAt : (ℕ → Option String) → TransitionOrigin → ℕ → List ProvenanceLine → Type 0
AddedAt added origin position [] = Unit
AddedAt added origin position (line ∷ out) =
    (elim (added position) [ some content ↦ line ≡ added_line origin content | none ↦ Unit ])
    × AddedAt added origin (position + 1) out

-- The region `out` is the old region with the removed lines taken out and the added ones put in.
pub record IsReplacement (hunk : PatchHunk) (origin : TransitionOrigin)
    (region out : List ProvenanceLine) : Type 0 where
  pub count : length out ≡ hunk.new_count
  pub kept : kept_after (added_at hunk) 0 out ≡ kept_before hunk 0 region
  pub added : AddedAt (added_at hunk) origin 0 out

-- The hunk applied at its place: the lines up to it are copied, its old region is replaced.
pub record IsApplied (old new : List ProvenanceLine) (hunk : PatchHunk) (origin : TransitionOrigin)
    (cursor : ℕ) (r : ℕ × List ProvenanceLine) : Type 0 where
  pub start : ℕ
  pub out : List ProvenanceLine
  pub start_eq : start ≡ (if hunk.old_count == 0 then hunk.old_start else hunk.old_start - 1)
  pub ordered : cursor ≤ start
  pub inside : start + hunk.old_count ≤ length old
  pub cursor_eq : r.0 ≡ start + hunk.old_count
  pub lines_eq : r.1 ≡ new ++ (slice cursor start old ++ out)
  pub replaced : IsReplacement hunk origin (slice start (start + hunk.old_count) old) out
