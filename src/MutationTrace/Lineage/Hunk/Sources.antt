-- ===== src/MutationTrace/Lineage/Hunk/Sources.antt =====
-- Where the lines after a hunk come from.
use shared_context_engineeri.Common.{
  ℕ, ◌+◌, ◌-◌, ◌≡◌, sym, inl, inr, Option-cases, String, Option, List, [], ◌∷◌, slice, drop, All,
  All-append, All-take, All-drop, arith,
}
use mathlib.Core.Path.{subst}
use shared_context_engineeri.Common.Outcome.{Ensures, Ensures-map}
use shared_context_engineeri.Patch.{PatchHunk}
use shared_context_engineeri.MutationTrace.Lineage.{
  TransitionOrigin, ProvenanceLine, added_line, apply_one_hunk,
}
use shared_context_engineeri.MutationTrace.Lineage.Hunk.{
  added_at, kept_after, kept_before, AddedAt, IsApplied,
}
use shared_context_engineeri.MutationTrace.Lineage.Hunk.Correct.{apply_one_hunk-IsApplied}

module _ (P : ProvenanceLine → Type 0) where
  pub All-slice : (from to : ℕ) (xs : List ProvenanceLine) → All P xs → All P (slice from to xs)
  All-slice from to xs h = All-take P (to - from) (drop from xs) (All-drop P from xs h)

  All-kept_before :
      (hunk : PatchHunk) (index : ℕ) (region : List ProvenanceLine)
      → All P region
      → All P (kept_before hunk index region)
  All-kept_before hunk index [] h = tt
  All-kept_before hunk index (line ∷ region) h =
      ground (arith, All-kept_before hunk (index + 1) region h.1)

  All-AddedAt :
      (added : ℕ → Option String) (origin : TransitionOrigin) (position : ℕ)
      (out : List ProvenanceLine)
      → ((content : String) → P (added_line origin content))
      → AddedAt added origin position out
      → All P (kept_after added position out)
      → All P out
  All-AddedAt added origin position [] new at kept = tt
  All-AddedAt added origin position (line ∷ out) new at kept =
      elim (Option-cases (added position)) [
        | inl e ↦
            let k : P line × All P (kept_after added (position + 1) out) = ground arith in
            (k.0, All-AddedAt added origin (position + 1) out new at.1 k.1)
        | inr (content, e) ↦
            let is_new : line ≡ added_line origin content = ground arith in
            let k : All P (kept_after added (position + 1) out) = ground arith in
            (
              subst P (sym is_new) (new content),
              All-AddedAt added origin (position + 1) out new at.1 k,
            )
      ]

  pub apply_one_hunk-All :
      (path : String) (old : List ProvenanceLine) (hunk : PatchHunk) (origin : TransitionOrigin)
      (new : List ProvenanceLine) (cursor : ℕ)
      → ((content : String) → P (added_line origin content))
      → All P old
      → All P new
      → Ensures (λ r. All P r.1) (apply_one_hunk path old hunk origin new cursor)
  apply_one_hunk-All path old hunk origin new cursor fresh ho hn =
      Ensures-map _ (apply_one_hunk path old hunk origin new cursor) λ r p.
        let a : IsApplied old new hunk origin cursor r =
          apply_one_hunk-IsApplied path old hunk origin new cursor r p in
        let region = slice a.start (a.start + hunk.old_count) old in
        let kept : All P (kept_after (added_at hunk) 0 a.out) =
          rw a.replaced.kept (All-kept_before hunk 0 region (All-slice _ _ old ho)) in
        rw a.lines_eq (
          All-append P new _ hn (
            All-append P _ a.out (All-slice cursor a.start old ho)
              (All-AddedAt (added_at hunk) origin 0 a.out fresh a.replaced.added kept)))
