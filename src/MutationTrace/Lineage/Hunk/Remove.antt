-- ===== src/MutationTrace/Lineage/Hunk/Remove.antt =====
-- The loop over the removed lines.
use shared_context_engineeri.Common.{
  ℕ, ◌+◌, ◌-◌, ◌≡◌, refl, String, List, [], ◌∷◌, contains, nat_eq, ◌||◌, arith,
}
use shared_context_engineeri.Common.Outcome.{Ensures}
use shared_context_engineeri.Patch.{TouchedLine, PatchHunk}
use shared_context_engineeri.MutationTrace.Lineage.{
  ProvenanceLine, remove_lines, carried_from, removed_lines,
}
use shared_context_engineeri.MutationTrace.Lineage.Hunk.{has_number, kept_before}

-- the collected offsets are those of the removed lines
pub remove_lines-contains :
    (path : String) (hunk : PatchHunk) (old_count : ℕ) (region : List ProvenanceLine)
    (lines : List TouchedLine) (indices : List ℕ) (i : ℕ)
    → Ensures
        (λ result.
          contains i result ≡ (has_number (hunk.old_start + i) lines || contains i indices))
        (remove_lines path hunk old_count region lines indices)
unfolding remove_lines
remove_lines-contains path hunk old_count region [] indices i = refl
remove_lines-contains path hunk old_count region (line ∷ lines) indices i = ground (
  arith,
  remove_lines-contains path hunk old_count region lines
      ((line.line_number - hunk.old_start) ∷ indices) i,
)

pub carried_from-kept :
    (hunk : PatchHunk) (index : ℕ) (indices : List ℕ) (region : List ProvenanceLine)
    → ((i : ℕ) → contains i indices ≡ has_number (hunk.old_start + i) (removed_lines hunk))
    → carried_from index indices region ≡ kept_before hunk index region
unfolding carried_from
carried_from-kept hunk index indices [] h = refl
carried_from-kept hunk index indices (line ∷ region) h =
    ground (arith, h index, carried_from-kept hunk (index + 1) indices region h)
