-- ===== src/MutationTrace/Attribution/Selected.antt =====
-- Which lines a restricted patch has.
use shared_context_engineeri.Common.{
  ℕ, ◌+◌, ◌≡◌, refl, none, some, List, [], ◌∷◌, ◌++◌, contains, if◌then◌else◌, arith,
}
use shared_context_engineeri.Patch.{TouchedLine, PatchHunk, PatchFileChange, ParsedPatch}
use shared_context_engineeri.MutationTrace.Attribution.{
  PatchLineLocation, location_eq, at, lines_for, hunk_with, hunks_for, file_with, files_for,
  patch_for_locations,
}

-- the lines of a patch with their files and locations, in order
abbrev pub Located : Type 0
Located = PatchLineLocation × TouchedLine

abbrev pub located_lines : ℕ → ℕ → ℕ → List TouchedLine → List Located
located_lines f h l [] = []
located_lines f h l (line ∷ lines) = (at f h l, line) ∷ located_lines f h (l + 1) lines

abbrev pub located_hunks : ℕ → ℕ → List PatchHunk → List Located
located_hunks f h [] = []
located_hunks f h (hunk ∷ hunks) = located_lines f h 0 hunk.lines ++ located_hunks f (h + 1) hunks

abbrev pub located_files : ℕ → List PatchFileChange → List Located
located_files f [] = []
located_files f (file ∷ files) = located_hunks f 0 file.hunks ++ located_files (f + 1) files

-- the lines whose location is selected
abbrev pub chosen : List PatchLineLocation → List Located → List TouchedLine
chosen selected [] = []
chosen selected (x ∷ xs) =
    let rest = chosen selected xs in if contains x.0 selected then x.1 ∷ rest else rest

abbrev pub lines_of_hunks : List PatchHunk → List TouchedLine
lines_of_hunks [] = []
lines_of_hunks (hunk ∷ hunks) = hunk.lines ++ lines_of_hunks hunks

abbrev pub lines_of_files : List PatchFileChange → List TouchedLine
lines_of_files [] = []
lines_of_files (file ∷ files) = lines_of_hunks file.hunks ++ lines_of_files files

chosen-append :
    (selected : List PatchLineLocation) (xs ys : List Located)
    → chosen selected (xs ++ ys) ≡ chosen selected xs ++ chosen selected ys
chosen-append selected [] ys = refl
chosen-append selected (x ∷ xs) ys = ground (arith, chosen-append selected xs ys)

lines_for-eq-chosen :
    (selected : List PatchLineLocation) (f h l : ℕ) (lines : List TouchedLine)
    → lines_for selected f h l lines ≡ chosen selected (located_lines f h l lines)
unfolding lines_for
lines_for-eq-chosen selected f h l [] = refl
lines_for-eq-chosen selected f h l (line ∷ lines) =
    ground (arith, lines_for-eq-chosen selected f h (l + 1) lines)

pub lines_of-hunk_with :
    (hunk : PatchHunk) (lines : List TouchedLine) (rest : List PatchHunk)
    → lines_of_hunks (elim (hunk_with hunk lines) [ none ↦ rest | some kept ↦ kept ∷ rest ])
      ≡ lines ++ lines_of_hunks rest
lines_of-hunk_with hunk [] rest = refl
lines_of-hunk_with hunk (line ∷ lines) rest = refl

lines_of-hunks_for :
    (selected : List PatchLineLocation) (f h : ℕ) (hunks : List PatchHunk)
    → lines_of_hunks (hunks_for selected f h hunks) ≡ chosen selected (located_hunks f h hunks)
unfolding hunks_for
lines_of-hunks_for selected f h [] = refl
lines_of-hunks_for selected f h (hunk ∷ hunks) = cc (
  lines_of-hunk_with hunk (lines_for selected f h 0 hunk.lines)
      (hunks_for selected f (h + 1) hunks),
  lines_for-eq-chosen selected f h 0 hunk.lines,
  lines_of-hunks_for selected f (h + 1) hunks,
  chosen-append selected (located_lines f h 0 hunk.lines) (located_hunks f (h + 1) hunks),
)

pub lines_of-file_with :
    (file : PatchFileChange) (hunks : List PatchHunk) (rest : List PatchFileChange)
    → lines_of_files (elim (file_with file hunks) [ none ↦ rest | some kept ↦ kept ∷ rest ])
      ≡ lines_of_hunks hunks ++ lines_of_files rest
lines_of-file_with file [] rest = refl
lines_of-file_with file (hunk ∷ hunks) rest = refl

lines_of-files_for :
    (selected : List PatchLineLocation) (f : ℕ) (files : List PatchFileChange)
    → lines_of_files (files_for selected f files) ≡ chosen selected (located_files f files)
unfolding files_for
lines_of-files_for selected f [] = refl
lines_of-files_for selected f (file ∷ files) = cc (
  lines_of-file_with file (hunks_for selected f 0 file.hunks) (files_for selected (f + 1) files),
  lines_of-hunks_for selected f 0 file.hunks,
  lines_of-files_for selected (f + 1) files,
  chosen-append selected (located_hunks f 0 file.hunks) (located_files (f + 1) files),
)

-- A patch restricted to locations has, in order, exactly the lines of the patch at the selected
-- locations.
pub patch_for_locations-lines :
    (patch : ParsedPatch) (selected : List PatchLineLocation)
    → lines_of_files (patch_for_locations patch selected).files
      ≡ chosen selected (located_files 0 patch.files)
unfolding patch_for_locations
patch_for_locations-lines patch selected = lines_of-files_for selected 0 patch.files
