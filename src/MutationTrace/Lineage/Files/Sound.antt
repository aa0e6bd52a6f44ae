-- ===== src/MutationTrace/Lineage/Files/Sound.antt =====
-- Provenance is never made up: an AI scope is named only by a transition of that scope.
use shared_context_engineeri.Common.{
  ℕ, inl, inr, String, not, Option, none, some, List, [], ◌∷◌, drop, lookup, remove, lookup-insert,
  lookup-remove, All, All-append, All-drop, Bool-cases, ◌&&◌, string_eq, nat_eq, arith,
}
use shared_context_engineeri.Common.Outcome.{ok, Ensures, Ensures-bind, of_Ensures, Outcome-cases}
use shared_context_engineeri.Patch.{PatchHunk, PatchFileChange}
use shared_context_engineeri.MutationTrace.Equality.{scope_id_eq}
use shared_context_engineeri.MutationTrace.Lineage.{
  TransitionOrigin, ProvenanceLine, added_line, apply_one_hunk,
}
use shared_context_engineeri.MutationTrace.Lineage.Hunk.Sources.{apply_one_hunk-All}
use shared_context_engineeri.MutationTrace.Lineage.Files.{
  MutationLineage, apply_sorted, apply_hunks, sort_hunks, old_lines, write_lines, tracks,
  logical_path, apply_file, apply_files,
}

abbrev pub AllOf : (ProvenanceLine → Type 0) → Option (List ProvenanceLine) → Type 0
AllOf P none = Unit
AllOf P (some lines) = All P lines

-- Every tracked line has the property.
abbrev pub Everywhere : (ProvenanceLine → Type 0) → MutationLineage → Type 0
Everywhere P m = (path : String) → AllOf P (lookup path m.files)

module _ (P : ProvenanceLine → Type 0) (origin : TransitionOrigin)
    (fresh : (content : String) → P (added_line origin content)) where
  apply_sorted-All :
      (path : String) (old : List ProvenanceLine) (hunks : List PatchHunk)
      (new : List ProvenanceLine) (cursor : ℕ)
      → All P old
      → All P new
      → Ensures (All P) (apply_sorted path old origin hunks new cursor)
  unfolding apply_sorted
  apply_sorted-All path old [] new cursor ho hn =
      All-append P new (drop cursor old) hn (All-drop P cursor old ho)
  apply_sorted-All path old (hunk ∷ hunks) new cursor ho hn =
      Ensures-bind (λ r. All P r.1) (All P) (apply_one_hunk path old hunk origin new cursor)
        (λ r. apply_sorted path old origin hunks r.1 r.0)
        (apply_one_hunk-All P path old hunk origin new cursor fresh ho hn)
        (λ r h. apply_sorted-All path old hunks r.1 r.0 ho h)

  old_lines-All :
      (m : MutationLineage) (file : PatchFileChange) → Everywhere P m → All P (old_lines m file)
  unfolding old_lines
  old_lines-All m file h = ground (arith, h file.old_path, h file.new_path)

  write_lines-Everywhere :
      (m : MutationLineage) (file : PatchFileChange) (new : List ProvenanceLine)
      → Everywhere P m
      → All P new
      → Everywhere P (write_lines m file new)
  unfolding write_lines
  write_lines-Everywhere m file new h hn path = ground (
    arith,
    h path,
    lookup-insert file.new_path path new m.files,
    lookup-insert file.new_path path new (remove file.old_path m.files),
    lookup-remove file.old_path path m.files,
  )

  apply_file-Everywhere :
      (m : MutationLineage) (file : PatchFileChange)
      → Everywhere P m
      → Ensures (Everywhere P) (apply_file m file origin)
  unfolding apply_file apply_hunks
  apply_file-Everywhere m file h =
      elim (Bool-cases (not (tracks m file.old_path) && not (tracks m file.new_path))) [
        | inl untracked ↦ rw (untracked, apply_file) h
        | inr tracked ↦
            rw (tracked, apply_file)
              (Ensures-bind (All P) (Everywhere P)
                (apply_hunks (logical_path file) (old_lines m file) file origin)
                (λ new. ok (write_lines m file new))
                (apply_sorted-All (logical_path file) (old_lines m file) (sort_hunks file.hunks) []
                  0 (old_lines-All m file h) tt)
                (λ new hn. write_lines-Everywhere m file new h hn))
      ]

  pub apply_files-Everywhere :
      (m : MutationLineage) (files : List PatchFileChange)
      → Everywhere P m
      → Everywhere P (apply_files m files origin).0
  unfolding apply_files
  apply_files-Everywhere m [] h = h
  apply_files-Everywhere m (file ∷ files) h = elim (Outcome-cases (apply_file m file origin)) [
    | inl (m', e) ↦
        rw (e, apply_files)
          (apply_files-Everywhere m' files
            (of_Ensures (Everywhere P) _ (apply_file-Everywhere m file h) e))
    | inr (inl (x, e)) ↦ rw (e, apply_files) h
    | inr (inr e) ↦ rw (e, apply_files) h
  ]
