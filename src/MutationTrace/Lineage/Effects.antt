-- ===== src/MutationTrace/Lineage/Effects.antt =====
-- What the application of a file's change does: how many lines it leaves, and which files it writes.
use shared_context_engineeri.Common.{
  ℕ, ◌+◌, ◌-◌, ◌≤◌, ◌≡◌, refl, ap, inl, inr, String, true, false, not, none, some, List, [], ◌∷◌,
  ◌++◌, length, length-append, length-take, length-drop, drop, slice, lookup, remove, lookup-insert,
  lookup-remove, if◌then◌else◌, ◌==◌, ◌||◌, ◌&&◌, string_eq, nat_eq, arith,
}
use shared_context_engineeri.Common.Outcome.{
  ok, Ensures, Ensures-map, Ensures-bind, of_Ensures, Outcome-cases,
}
use shared_context_engineeri.Patch.{PatchHunk, PatchFileChange}
use shared_context_engineeri.MutationTrace.Lineage.{
  TransitionOrigin, ProvenanceLine, apply_one_hunk,
}
use shared_context_engineeri.MutationTrace.Lineage.Hunk.{IsApplied}
use shared_context_engineeri.MutationTrace.Lineage.Hunk.Correct.{apply_one_hunk-IsApplied}
use shared_context_engineeri.MutationTrace.Lineage.Files.{
  insert_hunk, sort_hunks, apply_sorted, apply_hunks, MutationLineage, is_empty, logical_path,
  old_lines, tracks, write_lines, apply_file,
}

-- the lines that the hunks read and write
abbrev pub old_total : List PatchHunk → ℕ
old_total [] = 0
old_total (hunk ∷ hunks) = hunk.old_count + old_total hunks

abbrev pub new_total : List PatchHunk → ℕ
new_total [] = 0
new_total (hunk ∷ hunks) = hunk.new_count + new_total hunks

insert_hunk-totals :
    (hunk : PatchHunk) (hunks : List PatchHunk)
    → (old_total (insert_hunk hunk hunks) ≡ old_total (hunk ∷ hunks))
      × (new_total (insert_hunk hunk hunks) ≡ new_total (hunk ∷ hunks))
unfolding insert_hunk
insert_hunk-totals hunk [] = (refl, refl)
insert_hunk-totals hunk (h ∷ hunks) = ground (arith, insert_hunk-totals hunk hunks)

sort_hunks-totals :
    (hunks : List PatchHunk)
    → (old_total (sort_hunks hunks) ≡ old_total hunks)
      × (new_total (sort_hunks hunks) ≡ new_total hunks)
unfolding sort_hunks
sort_hunks-totals [] = (refl, refl)
sort_hunks-totals (hunk ∷ hunks) =
    omega (arith, insert_hunk-totals hunk (sort_hunks hunks), sort_hunks-totals hunks)

module _ (path : String) (old : List ProvenanceLine) (origin : TransitionOrigin) where
  one_hunk-count :
      (hunk : PatchHunk) (new : List ProvenanceLine) (cursor : ℕ)
      → cursor ≤ length old
      → Ensures
          (λ r.
            (r.0 ≤ length old)
            × (length r.1 + hunk.old_count + cursor ≡ length new + r.0 + hunk.new_count))
          (apply_one_hunk path old hunk origin new cursor)
  one_hunk-count hunk new cursor h =
      Ensures-map _ (apply_one_hunk path old hunk origin new cursor) λ r p.
        let a : IsApplied old new hunk origin cursor r =
          apply_one_hunk-IsApplied path old hunk origin new cursor r p in
        let copied = slice cursor a.start old in
        let size : length copied ≡ a.start - cursor = omega (
          arith,
          a.ordered,
          a.inside,
          length-take (a.start - cursor) (drop cursor old),
          length-drop cursor old,
        ) in
        (
          omega (arith, a.inside, a.cursor_eq),
          omega (
            arith,
            ap length a.lines_eq,
            length-append new (copied ++ a.out),
            length-append copied a.out,
            size,
            a.replaced.count,
            a.ordered,
            a.cursor_eq,
          ),
        )

  apply_sorted-count :
      (hunks : List PatchHunk) (new : List ProvenanceLine) (cursor : ℕ)
      → cursor ≤ length old
      → Ensures
          (λ out. length out + old_total hunks + cursor ≡ length new + length old + new_total hunks)
          (apply_sorted path old origin hunks new cursor)
  unfolding apply_sorted
  apply_sorted-count [] new cursor h =
      omega (arith, length-append new (drop cursor old), length-drop cursor old)
  apply_sorted-count (hunk ∷ hunks) new cursor h =
      Ensures-bind _ _ (apply_one_hunk path old hunk origin new cursor)
        (λ r. apply_sorted path old origin hunks r.1 r.0) (one_hunk-count hunk new cursor h)
        (λ r c.
          Ensures-map _ (apply_sorted path old origin hunks r.1 r.0)
            λ out p. omega (arith, c, of_Ensures _ _ (apply_sorted-count hunks r.1 r.0 c.0) p))

-- A file's hunks that apply leave as many lines as there were, less those of the old regions and
-- with those of the new regions.
pub apply_hunks-count :
    (path : String) (old : List ProvenanceLine) (file : PatchFileChange) (origin : TransitionOrigin)
    (new : List ProvenanceLine)
    → apply_hunks path old file origin ≡ ok new
    → length new + old_total file.hunks ≡ length old + new_total file.hunks
unfolding apply_hunks
apply_hunks-count path old file origin new e =
    let count =
      of_Ensures _ (apply_sorted path old origin (sort_hunks file.hunks) [] 0)
        (apply_sorted-count path old origin (sort_hunks file.hunks) [] 0 (omega arith)) e in
    omega (arith, count, sort_hunks-totals file.hunks)

-- After a change that applies to a tracked file, the new path holds the result of the hunks on the
-- old lines, the old path is gone unless it is the new one, and every other path is as before.
pub apply_file_effect :
    (m m' : MutationLineage) (file : PatchFileChange) (origin : TransitionOrigin) (path : String)
    → (tracks m file.old_path || tracks m file.new_path) ≡ true
    → apply_file m file origin ≡ ok m'
    → (new : List ProvenanceLine) × (apply_hunks (logical_path file) (old_lines m file) file origin
        ≡ ok new)
      × (lookup path m'.files ≡ (
          if not (is_empty file.new_path) && file.new_path == path
          then some new
          else if not (is_empty file.old_path) && file.old_path == path
          then none
          else lookup path m.files))
unfolding apply_file write_lines
apply_file_effect m m' file origin path tracked e =
    elim (Outcome-cases (apply_hunks (logical_path file) (old_lines m file) file origin)) [
      | inl (new, h) ↦ (
        new,
        h,
        ground (
          arith,
          lookup-insert file.new_path path new m.files,
          lookup-insert file.new_path path new (remove file.old_path m.files),
          lookup-remove file.old_path path m.files,
        ),
      )
      | inr failed ↦ absurd (ground arith)
    ]

-- A change of paths that are not tracked is skipped, whatever its hunks say.
pub apply_file_untracked :
    (m : MutationLineage) (file : PatchFileChange) (origin : TransitionOrigin)
    → tracks m file.old_path ≡ false
    → tracks m file.new_path ≡ false
    → apply_file m file origin ≡ ok m
unfolding apply_file
apply_file_untracked m file origin h k = ground arith
