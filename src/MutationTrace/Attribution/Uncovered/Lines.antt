-- ===== src/MutationTrace/Attribution/Uncovered/Lines.antt =====
-- Which lines of a patch are left when the lines that another patch covers are taken out.
use mathlib.Core.List.{map-append}
use shared_context_engineeri.Common.{
  ◌≡◌, refl, sym, fun_ext, ◌∙◌, ap, Bool, true, false, not, some, List, [], ◌∷◌, map, filter,
  contains, All, arith, ◌==◌, ◌&&◌, ◌||◌, ◌>>=◌,
}
use shared_context_engineeri.Patch.{TouchedLine, PatchHunk, PatchFileChange, ParsedPatch}
use shared_context_engineeri.MutationTrace.Attribution.{
  PatchLineLocation, location_eq, LineKey, line_key_eq, line_key, hunk_keys, direct_line_keys,
  line_at, uncovered, patch_for_locations, exclude_direct_coverage,
}
use shared_context_engineeri.MutationTrace.Attribution.Selected.{
  Located, chosen, lines_of_files, patch_for_locations-lines,
}
use shared_context_engineeri.MutationTrace.Attribution.Uncovered.{
  FileLine, Entry, Finds, entries, entries-Finds, get_elem?-at, entries-locations, file_lines,
  lines_of_hunks_in,
}

abbrev is_left : List LineKey → FileLine → Bool
is_left direct_lines x = not (contains (line_key x.0 x.1) direct_lines)

abbrev pub locations : List Entry → List PatchLineLocation
locations es = map (λ (e : Entry). e.0) es

abbrev pub kept : (FileLine → Bool) → List Entry → List Entry
kept p es = filter (λ e. p e.1) es

uncovered-eq :
    (direct_lines : List LineKey) (files : List PatchFileChange) (es : List Entry)
    → Finds files es
    → uncovered direct_lines files (locations es)
      ≡ some (locations (kept (is_left direct_lines) es))
unfolding uncovered filter
uncovered-eq direct_lines files [] found = refl
uncovered-eq direct_lines files (e ∷ es) found =
    ground (arith, uncovered-eq direct_lines files es found.1, found.0)

contains-kept :
    (p : FileLine → Bool) (files : List PatchFileChange) (es : List Entry)
    (location : PatchLineLocation) (x : FileLine)
    → Finds files es
    → line_at files location ≡ some x
    → contains location (locations (kept p es)) ≡ (p x && contains location (locations es))
unfolding filter contains
contains-kept p files [] location x found h = ground arith
contains-kept p files (e ∷ es) location x found h =
    ground (arith, contains-kept p files es location x found.1 h, found.0, h)

abbrev pub Within : List PatchLineLocation → List Entry → Type 0
Within selected es = All (λ e. contains e.0 selected ≡ true) es

Within-cons :
    (location : PatchLineLocation) (selected : List PatchLineLocation) (es : List Entry)
    → Within selected es
    → Within (location ∷ selected) es
unfolding contains
Within-cons location selected [] h = tt
Within-cons location selected (e ∷ es) h =
    (ground (arith, h.0), Within-cons location selected es h.1)

pub locations-Within : (es : List Entry) → Within (locations es) es
unfolding contains
locations-Within [] = tt
locations-Within (e ∷ es) = (ground arith, Within-cons e.0 (locations es) es (locations-Within es))

abbrev pub located : List Entry → List Located
located es = map {B = Located} (λ (e : Entry). (e.0, e.1.1)) es

chosen-eq :
    (p : FileLine → Bool) (files : List PatchFileChange) (all es : List Entry)
    → Finds files all
    → Finds files es
    → Within (locations all) es
    → chosen (locations (kept p all)) (located es)
      ≡ map (λ x. x.1) (filter p (map (λ (e : Entry). e.1) es))
unfolding filter
chosen-eq p files all [] every found within = refl
chosen-eq p files all (e ∷ es) every found within = ground (
  arith,
  chosen-eq p files all es every found.1 within.1,
  contains-kept p files all e.0 e.1 every found.0,
  within.0,
)

-- A patch restricted to the locations of the lines with a property has exactly those, in order.
pub patch_for_locations-kept :
    (p : FileLine → Bool) (target : ParsedPatch)
    → lines_of_files
        (patch_for_locations target (locations (kept p (entries 0 target.files)))).files
      ≡ map (λ x. x.1) (filter p (file_lines target.files))
patch_for_locations-kept p target =
    let all = entries 0 target.files in
    let found =
      entries-Finds target.files 0 target.files
        (λ i n file p q. get_elem?-at target.files i n file p q) in
    let (_, lines, with_files) = entries-locations 0 target.files in
    patch_for_locations-lines target (locations (kept p all))
    ∙ ap (chosen (locations (kept p all))) (sym lines)
    ∙ chosen-eq p target.files all all found found (locations-Within all)
    ∙ ap (λ xs. map (λ x. x.1) (filter p xs)) with_files

abbrev pub has_line : FileLine → List FileLine → Bool
has_line x [] = false
has_line x (y ∷ ys) = line_key x.0 x.1 == line_key y.0 y.1 || has_line x ys

-- A line is covered if a file of the patch with the same logical path has a line with its kind, its
-- number and its content.
abbrev pub is_covered : ParsedPatch → FileLine → Bool
is_covered direct_coverage x = has_line x (file_lines direct_coverage.files)

abbrev keys_of : List FileLine → List LineKey
keys_of xs = map (λ x. line_key x.0 x.1) xs

keys_of-hunks :
    (file : PatchFileChange) (hunks : List PatchHunk)
    → hunk_keys file hunks ≡ keys_of (lines_of_hunks_in file hunks)
keys_of-hunks file [] = refl
keys_of-hunks file (hunk ∷ hunks) = cc (
  map-append (λ (x : FileLine). line_key x.0 x.1) (map (λ line. (file, line)) hunk.lines)
      (lines_of_hunks_in file hunks),
  keys_of-lines file hunk.lines,
  keys_of-hunks file hunks,
)
  where
    keys_of-lines :
        (file : PatchFileChange) (lines : List TouchedLine)
        → keys_of (map (λ line. (file, line)) lines) ≡ map (line_key file) lines
    keys_of-lines file [] = refl
    keys_of-lines file (line ∷ lines) =
        ap (λ ks. line_key file line ∷ ks) (keys_of-lines file lines)

direct_line_keys-eq :
    (files : List PatchFileChange) → direct_line_keys files ≡ keys_of (file_lines files)
direct_line_keys-eq [] = refl
direct_line_keys-eq (file ∷ files) = cc (
  map-append (λ (x : FileLine). line_key x.0 x.1) (lines_of_hunks_in file file.hunks)
      (file_lines files),
  keys_of-hunks file file.hunks,
  direct_line_keys-eq files,
)

contains-keys_of :
    (x : FileLine) (ys : List FileLine) → contains (line_key x.0 x.1) (keys_of ys) ≡ has_line x ys
unfolding contains
contains-keys_of x [] = refl
contains-keys_of x (y ∷ ys) = ground (arith, contains-keys_of x ys)

is_left-eq :
    (direct_coverage : ParsedPatch) (x : FileLine)
    → is_left (direct_line_keys direct_coverage.files) x ≡ not (is_covered direct_coverage x)
is_left-eq direct_coverage x = ap not (
    ap (contains (line_key x.0 x.1)) (direct_line_keys-eq direct_coverage.files)
    ∙ contains-keys_of x (file_lines direct_coverage.files))

-- To take out what another patch covers never fails, and leaves, in order, exactly the lines of the
-- patch that the other one does not cover.
pub exclude_direct_coverage-lines :
    (target direct_coverage : ParsedPatch)
    → (result : ParsedPatch) × (exclude_direct_coverage target direct_coverage ≡ some result)
      × (lines_of_files result.files
          ≡ map
              (λ x. x.1)
              (filter (λ x. not (is_covered direct_coverage x)) (file_lines target.files)))
unfolding exclude_direct_coverage
exclude_direct_coverage-lines target direct_coverage =
    let keys = direct_line_keys direct_coverage.files in
    let all = entries 0 target.files in
    let found =
      entries-Finds target.files 0 target.files
        (λ i n file p q. get_elem?-at target.files i n file p q) in
    let (places, _, _) = entries-locations 0 target.files in
    (
      patch_for_locations target (locations (kept (is_left keys) all)),
      ap (λ ls. uncovered keys target.files ls >>= λ s. some (patch_for_locations target s))
            (sym places)
          ∙ ap (λ s. s >>= λ t. some (patch_for_locations target t))
              (uncovered-eq keys target.files all found),
      patch_for_locations-kept (is_left keys) target
          ∙ ap (λ p. map (λ (x : FileLine). x.1) (filter p (file_lines target.files)))
              (fun_ext (is_left-eq direct_coverage)),
    )
