-- ===== src/MutationTrace/Attribution/Uncovered.antt =====
-- The lines of a patch with their locations and files: `all_locations` finds each of them.
pub mod Lines
use mathlib.Core.List.{map-append}
use shared_context_engineeri.Common.{
  ℕ, zero, suc, ◌+◌, ◌≡◌, refl, sym, ◌∙◌, ap, Bool, true, false, not, Option, none, some, List, [],
  ◌∷◌, ◌++◌, map, filter, contains, get_elem?, All, All-append, arith, ◌==◌, ◌&&◌, ◌||◌, ◌>>=◌,
  if◌then◌else◌,
}
use shared_context_engineeri.Patch.{TouchedLine, PatchHunk, PatchFileChange, ParsedPatch}
use shared_context_engineeri.MutationTrace.Attribution.{
  PatchLineLocation, location_eq, at, LineKey, line_key_eq, line_key, direct_line_keys,
  line_locations, hunk_locations, all_locations, line_at, uncovered, patch_for_locations,
  exclude_direct_coverage,
}
use shared_context_engineeri.MutationTrace.Attribution.Selected.{
  Located, located_lines, located_hunks, located_files, chosen, lines_of_files,
  patch_for_locations-lines,
}

-- a line and its file
abbrev pub FileLine : Type 0
FileLine = PatchFileChange × TouchedLine

abbrev pub Entry : Type 0
Entry = PatchLineLocation × FileLine

abbrev pub line_entries : PatchFileChange → ℕ → ℕ → ℕ → List TouchedLine → List Entry
line_entries file f h l [] = []
line_entries file f h l (line ∷ lines) =
    (at f h l, (file, line)) ∷ line_entries file f h (l + 1) lines

abbrev pub hunk_entries : PatchFileChange → ℕ → ℕ → List PatchHunk → List Entry
hunk_entries file f h [] = []
hunk_entries file f h (hunk ∷ hunks) =
    line_entries file f h 0 hunk.lines ++ hunk_entries file f (h + 1) hunks

abbrev pub entries : ℕ → List PatchFileChange → List Entry
entries f [] = []
entries f (file ∷ files) = hunk_entries file f 0 file.hunks ++ entries (f + 1) files

abbrev pub Finds : List PatchFileChange → List Entry → Type 0
Finds files = All (λ e. line_at files e.0 ≡ some e.1)

pub get_elem?-at :
    {A : Type 0} (xs : List A) (i n : ℕ) (a : A)
    → get_elem? xs i ≡ some a
    → n ≡ 0 + i
    → get_elem? xs n ≡ some a
get_elem?-at xs i n a p q = ap (get_elem? xs) (omega (arith, q)) ∙ p

line_at-found :
    (files : List PatchFileChange) (f h l : ℕ) {file : PatchFileChange} {hunk : PatchHunk}
    {line : TouchedLine}
    → get_elem? files f ≡ some file
    → get_elem? file.hunks h ≡ some hunk
    → get_elem? hunk.lines l ≡ some line
    → line_at files (at f h l) ≡ some (file, line)
line_at-found files f h l p q r = ground (arith, p, q, r)

line_entries-Finds :
    (files : List PatchFileChange) (file : PatchFileChange) (f h l : ℕ) (lines : List TouchedLine)
    → ((i n : ℕ) (line : TouchedLine)
        → get_elem? lines i ≡ some line
        → n ≡ l + i
        → line_at files (at f h n) ≡ some (file, line))
    → Finds files (line_entries file f h l lines)
line_entries-Finds files file f h l [] found = tt
line_entries-Finds files file f h l (line ∷ lines) found = (
  found 0 l line refl (omega arith),
  line_entries-Finds files file f h (l + 1) lines
      (λ i n next p q. found (suc i) n next p (omega (arith, q))),
)

hunk_entries-Finds :
    (files : List PatchFileChange) (file : PatchFileChange) (f h : ℕ) (hunks : List PatchHunk)
    → ((i n : ℕ) (hunk : PatchHunk) (l : ℕ) (line : TouchedLine)
        → get_elem? hunks i ≡ some hunk
        → n ≡ h + i
        → get_elem? hunk.lines l ≡ some line
        → line_at files (at f n l) ≡ some (file, line))
    → Finds files (hunk_entries file f h hunks)
hunk_entries-Finds files file f h [] found = tt
hunk_entries-Finds files file f h (hunk ∷ hunks) found =
    All-append _ _ _
      (line_entries-Finds files file f h 0 hunk.lines (λ i n line p q.
        found 0 h hunk n line refl (omega arith) (get_elem?-at hunk.lines i n line p q)))
      (hunk_entries-Finds files file f (h + 1) hunks
        (λ i n next l line p q. found (suc i) n next l line p (omega (arith, q))))

pub entries-Finds :
    (files : List PatchFileChange) (f : ℕ) (rest : List PatchFileChange)
    → ((i n : ℕ) (file : PatchFileChange)
        → get_elem? rest i ≡ some file
        → n ≡ f + i
        → get_elem? files n ≡ some file)
    → Finds files (entries f rest)
entries-Finds files f [] found = tt
entries-Finds files f (file ∷ rest) found =
    All-append _ _ _
      (hunk_entries-Finds files file f 0 file.hunks (λ i n hunk l line p q k.
        line_at-found files f n l (found 0 f file refl (omega arith))
          (get_elem?-at file.hunks i n hunk p q) k))
      (entries-Finds files (f + 1) rest (λ i n next p q. found (suc i) n next p (omega (arith, q))))

-- the lines of a patch with their files, in order
abbrev pub lines_of_hunks_in : PatchFileChange → List PatchHunk → List FileLine
lines_of_hunks_in file [] = []
lines_of_hunks_in file (hunk ∷ hunks) =
    map (λ line. (file, line)) hunk.lines ++ lines_of_hunks_in file hunks

abbrev pub file_lines : List PatchFileChange → List FileLine
file_lines [] = []
file_lines (file ∷ files) = lines_of_hunks_in file file.hunks ++ file_lines files

line_entries-locations :
    (file : PatchFileChange) (f h l : ℕ) (lines : List TouchedLine)
    → (map (λ (e : Entry). e.0) (line_entries file f h l lines) ≡ line_locations f h l lines)
      × (map (λ (e : Entry). (e.0, e.1.1)) (line_entries file f h l lines)
          ≡ located_lines f h l lines)
      × (map (λ (e : Entry). e.1) (line_entries file f h l lines)
          ≡ map (λ line. (file, line)) lines)
line_entries-locations file f h l [] = (refl, refl, refl)
line_entries-locations file f h l (line ∷ lines) =
    ground (arith, line_entries-locations file f h (l + 1) lines)

hunk_entries-locations :
    (file : PatchFileChange) (f h : ℕ) (hunks : List PatchHunk)
    → (map (λ (e : Entry). e.0) (hunk_entries file f h hunks) ≡ hunk_locations f h hunks)
      × (map (λ (e : Entry). (e.0, e.1.1)) (hunk_entries file f h hunks) ≡ located_hunks f h hunks)
      × (map (λ (e : Entry). e.1) (hunk_entries file f h hunks) ≡ lines_of_hunks_in file hunks)
hunk_entries-locations file f h [] = (refl, refl, refl)
hunk_entries-locations file f h (hunk ∷ hunks) =
    let of_hunk = line_entries file f h 0 hunk.lines in
    let rest = hunk_entries file f (h + 1) hunks in
    let (a, b, c) = line_entries-locations file f h 0 hunk.lines in
    let (k, l, m) = hunk_entries-locations file f (h + 1) hunks in
    (
      cc (map-append (λ (e : Entry). e.0) of_hunk rest, a, k),
      cc (map-append {B = Located} (λ (e : Entry). (e.0, e.1.1)) of_hunk rest, b, l),
      cc (map-append (λ (e : Entry). e.1) of_hunk rest, c, m),
    )

pub entries-locations :
    (f : ℕ) (files : List PatchFileChange)
    → (map (λ (e : Entry). e.0) (entries f files) ≡ all_locations f files)
      × (map (λ (e : Entry). (e.0, e.1.1)) (entries f files) ≡ located_files f files)
      × (map (λ (e : Entry). e.1) (entries f files) ≡ file_lines files)
entries-locations f [] = (refl, refl, refl)
entries-locations f (file ∷ files) =
    let of_file = hunk_entries file f 0 file.hunks in
    let rest = entries (f + 1) files in
    let (a, b, c) = hunk_entries-locations file f 0 file.hunks in
    let (k, l, m) = entries-locations (f + 1) files in
    (
      cc (map-append (λ (e : Entry). e.0) of_file rest, a, k),
      cc (map-append {B = Located} (λ (e : Entry). (e.0, e.1.1)) of_file rest, b, l),
      cc (map-append (λ (e : Entry). e.1) of_file rest, c, m),
    )
