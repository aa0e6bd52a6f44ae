-- ===== src/MutationTrace/Lineage/Hunk/Place.antt =====
-- The loop over the positions of the new region.
use shared_context_engineeri.Common.{
  ℕ, zero, suc, ◌+◌, ◌≡◌, refl, String, Option, List, [], ◌∷◌, length, lookup, insert,
  lookup-insert, nat_eq, arith,
}
use shared_context_engineeri.Common.Outcome.{Ensures}
use shared_context_engineeri.Patch.{TouchedLine, PatchHunk}
use shared_context_engineeri.MutationTrace.Lineage.{
  TransitionOrigin, ProvenanceLine, number_lines, place_lines,
}
use shared_context_engineeri.MutationTrace.Lineage.Hunk.{content_at, kept_after, AddedAt}

pub lookup-number_lines :
    (n : ℕ) (lines : List TouchedLine) (numbered : List (ℕ × String))
    → lookup n (number_lines lines numbered) ≡ content_at n lines (lookup n numbered)
unfolding number_lines
lookup-number_lines n [] numbered = refl
lookup-number_lines n (line ∷ lines) numbered =
    rw (lookup-number_lines n lines (insert line.line_number line.content numbered))
      (rw (lookup-insert line.line_number n line.content numbered))

-- `added` is what the numbered lines say at each position
module _ (path : String) (hunk : PatchHunk) (origin : TransitionOrigin)
    (numbered : List (ℕ × String)) (added : ℕ → Option String)
    (says : (position : ℕ) → lookup (hunk.new_start + position) numbered ≡ added position) where
  pub place_lines-length :
      (count position : ℕ) (carried : List ProvenanceLine)
      → Ensures
          (λ out. length out ≡ count)
          (place_lines path hunk origin numbered count position carried)
  unfolding place_lines
  place_lines-length zero position [] = refl
  place_lines-length zero position (_ ∷ _) = tt
  place_lines-length (suc count) position [] =
      ground (arith, place_lines-length count (position + 1) [])
  place_lines-length (suc count) position (line ∷ rest) = ground (
    arith,
    place_lines-length count (position + 1) (line ∷ rest),
    place_lines-length count (position + 1) rest,
  )

  pub place_lines-kept :
      (count position : ℕ) (carried : List ProvenanceLine)
      → Ensures
          (λ out. kept_after added position out ≡ carried)
          (place_lines path hunk origin numbered count position carried)
  unfolding place_lines
  place_lines-kept zero position [] = refl
  place_lines-kept zero position (_ ∷ _) = tt
  place_lines-kept (suc count) position [] =
      ground (arith, says position, place_lines-kept count (position + 1) [])
  place_lines-kept (suc count) position (line ∷ rest) = ground (
    arith,
    says position,
    place_lines-kept count (position + 1) (line ∷ rest),
    place_lines-kept count (position + 1) rest,
  )

  pub place_lines-AddedAt :
      (count position : ℕ) (carried : List ProvenanceLine)
      → Ensures
          (AddedAt added origin position)
          (place_lines path hunk origin numbered count position carried)
  unfolding place_lines
  place_lines-AddedAt zero position [] = tt
  place_lines-AddedAt zero position (_ ∷ _) = tt
  place_lines-AddedAt (suc count) position [] =
      ground (arith, says position, place_lines-AddedAt count (position + 1) [])
  place_lines-AddedAt (suc count) position (line ∷ rest) = ground (
    arith,
    says position,
    place_lines-AddedAt count (position + 1) (line ∷ rest),
    place_lines-AddedAt count (position + 1) rest,
  )
