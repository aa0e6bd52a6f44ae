-- ===== src/MutationTrace/Lineage/Hunk/Correct.antt =====
-- A hunk that is applied does what its numbers say.
use shared_context_engineeri.Common.{
  ℕ, ◌+◌, ◌-◌, ◌≡◌, refl, ◌∙◌, String, List, [], slice, ◌==◌, if◌then◌else◌, nat_eq, lookup,
  contains, arith,
}
use mathlib.Core.Logic.{inl, inr}
use shared_context_engineeri.Common.Outcome.{ok, Ensures, Ensures-map, Outcome-cases, of_Ensures}
use shared_context_engineeri.Patch.{PatchHunk}
use shared_context_engineeri.MutationTrace.Lineage.{
  TransitionOrigin, ProvenanceLine, prefix_end, number_lines, place_lines, remove_lines,
  carried_from, replace_region, removed_lines, added_lines, apply_one_hunk,
}
use shared_context_engineeri.MutationTrace.Lineage.Hunk.{
  added_at, has_number, IsReplacement, IsApplied,
}
use shared_context_engineeri.MutationTrace.Lineage.Hunk.Place.{
  lookup-number_lines, place_lines-length, place_lines-kept, place_lines-AddedAt,
}
use shared_context_engineeri.MutationTrace.Lineage.Hunk.Remove.{
  remove_lines-contains, carried_from-kept,
}

module _ (path : String) (hunk : PatchHunk) (origin : TransitionOrigin)
    (region : List ProvenanceLine) where
  placed-IsReplacement :
      (indices : List ℕ)
      → remove_lines path hunk hunk.old_count region (removed_lines hunk) [] ≡ ok indices
      → Ensures (IsReplacement hunk origin region) (
          place_lines path hunk origin
            (number_lines (added_lines hunk) [])
            hunk.new_count
            0
            (carried_from 0 indices region))
  unfolding lookup contains
  placed-IsReplacement indices e =
      let numbered = number_lines (added_lines hunk) [] in
      let says : (position : ℕ)
          → lookup (hunk.new_start + position) numbered ≡ added_at hunk position =
        λ position. lookup-number_lines (hunk.new_start + position) (added_lines hunk) [] in
      let carried = carried_from 0 indices region in
      let placed = place_lines path hunk origin numbered hunk.new_count 0 carried in
      let removed : (i : ℕ)
          → contains i indices ≡ has_number (hunk.old_start + i) (removed_lines hunk) =
        λ i. ground (
          arith,
          of_Ensures _ _
              (remove_lines-contains path hunk hunk.old_count region (removed_lines hunk) [] i) e,
        ) in
      Ensures-map _ placed (λ out p. record {
        count =
            of_Ensures _ placed
              (place_lines-length path hunk origin numbered (added_at hunk) says hunk.new_count 0
                carried)
              p;
        kept =
            of_Ensures _ placed
              (place_lines-kept path hunk origin numbered (added_at hunk) says hunk.new_count 0
                carried)
              p
            ∙ carried_from-kept hunk 0 indices region removed;
        added =
            of_Ensures _ placed
              (place_lines-AddedAt path hunk origin numbered (added_at hunk) says hunk.new_count 0
                carried)
              p;
      })

  replace_region-IsReplacement :
      Ensures
        (IsReplacement hunk origin region)
        (replace_region path hunk origin hunk.old_count hunk.new_count region)
  unfolding replace_region
  replace_region-IsReplacement =
      elim (Outcome-cases (remove_lines path hunk hunk.old_count region (removed_lines hunk) [])) [
        | inl (indices, e) ↦ ground (arith, placed-IsReplacement indices e)
        | inr failed ↦ ground arith
      ]

apply_one_hunk-Ensures :
    (path : String) (old : List ProvenanceLine) (hunk : PatchHunk) (origin : TransitionOrigin)
    (new : List ProvenanceLine) (cursor : ℕ)
    → Ensures
        (IsApplied old new hunk origin cursor)
        (apply_one_hunk path old hunk origin new cursor)
unfolding apply_one_hunk prefix_end
apply_one_hunk-Ensures path old hunk origin new cursor =
    let start : ℕ = if hunk.old_count == 0 then hunk.old_start else hunk.old_start - 1 in
    let region = slice start (start + hunk.old_count) old in
    elim (Outcome-cases (replace_region path hunk origin hunk.old_count hunk.new_count region)) [
      | inl (out, e) ↦
          let replaced =
            of_Ensures _ (replace_region path hunk origin hunk.old_count hunk.new_count region)
              (replace_region-IsReplacement path hunk origin region) e in
          Ensures-map _ (apply_one_hunk path old hunk origin new cursor) (λ r p. record {
            start = start;
            out = out;
            start_eq = refl;
            ordered = ground arith;
            inside = ground arith;
            cursor_eq = ground arith;
            lines_eq = ground arith;
            replaced = replaced;
          })
      | inr failed ↦ ground arith
    ]

-- A hunk that is applied without an error is applied at its place: its old region lies in the
-- file, behind the cursor; the lines between are copied; the region becomes `new_count` lines, of
-- which those that the hunk does not add are, in order, those that it does not remove, and every
-- added one has the transition's provenance.
pub apply_one_hunk-IsApplied :
    (path : String) (old : List ProvenanceLine) (hunk : PatchHunk) (origin : TransitionOrigin)
    (new : List ProvenanceLine) (cursor : ℕ) (r : ℕ × List ProvenanceLine)
    → apply_one_hunk path old hunk origin new cursor ≡ ok r
    → IsApplied old new hunk origin cursor r
apply_one_hunk-IsApplied path old hunk origin new cursor r e =
    of_Ensures _ _ (apply_one_hunk-Ensures path old hunk origin new cursor) e
