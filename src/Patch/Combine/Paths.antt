-- ===== src/Patch/Combine/Paths.antt =====
-- Which files a combination of patches has.
use shared_context_engineeri.Common.{
  ◌≡◌, refl, ap, String, true, List, [], ◌∷◌, ◌++◌, map, insert, contains, ◌==◌, ◌||◌, Eq,
  string_eq, arith,
}
use shared_context_engineeri.Common.Distinct.{is_distinct, contains-append}
use shared_context_engineeri.Patch.{PatchFileChange, ParsedPatch}
use shared_context_engineeri.Patch.Combine.{
  FileMap, add_file, add_files, add_patches, to_file, combine_patches,
}

abbrev pub paths : List PatchFileChange → List String
paths files = map (λ file. file.new_path) files

-- the new paths of all files of the patches
abbrev pub all_paths : List ParsedPatch → List String
all_paths [] = []
all_paths (patch ∷ patches) = paths patch.files ++ all_paths patches

module _ {K V : Type 0} ⦃e : Eq K⦄ where
  abbrev pub keys : List (K × V) → List K
  keys m = map (λ entry. entry.0) m

  pub contains-insert :
      (j k : K) (v : V) (m : List (K × V))
      → contains j (keys (insert k v m)) ≡ (j == k || contains j (keys m))
  unfolding contains insert
  contains-insert j k v [] = refl
  contains-insert j k v ((i, w) ∷ m) = ground (arith, contains-insert j k v m)

  pub distinct-insert :
      (k : K) (v : V) (m : List (K × V))
      → is_distinct (keys m) ≡ true
      → is_distinct (keys (insert k v m)) ≡ true
  unfolding contains insert
  distinct-insert k v [] d = refl
  distinct-insert k v ((i, w) ∷ m) d =
      ground (arith, distinct-insert k v m, contains-insert i k v m, d)

add_files-distinct :
    (files : List PatchFileChange) (m : FileMap)
    → is_distinct (keys m) ≡ true
    → is_distinct (keys (add_files files m)) ≡ true
unfolding add_files add_file
add_files-distinct [] m d = d
add_files-distinct (file ∷ files) m d =
    add_files-distinct files (add_file file m) (distinct-insert file.new_path _ m d)

add_patches-distinct :
    (patches : List ParsedPatch) (m : FileMap)
    → is_distinct (keys m) ≡ true
    → is_distinct (keys (add_patches patches m)) ≡ true
unfolding add_patches
add_patches-distinct [] m d = d
add_patches-distinct (patch ∷ patches) m d =
    add_patches-distinct patches (add_files patch.files m) (add_files-distinct patch.files m d)

contains-add_file :
    (path : String) (file : PatchFileChange) (m : FileMap)
    → contains path (keys (add_file file m)) ≡ (path == file.new_path || contains path (keys m))
unfolding add_file
contains-add_file path file m = contains-insert path file.new_path _ m

contains-add_files :
    (path : String) (files : List PatchFileChange) (m : FileMap)
    → contains path (keys (add_files files m))
      ≡ (contains path (paths files) || contains path (keys m))
unfolding add_files contains
contains-add_files path [] m = refl
contains-add_files path (file ∷ files) m =
    ground (arith, contains-add_files path files (add_file file m), contains-add_file path file m)

contains-add_patches :
    (path : String) (patches : List ParsedPatch) (m : FileMap)
    → contains path (keys (add_patches patches m))
      ≡ (contains path (all_paths patches) || contains path (keys m))
unfolding add_patches contains
contains-add_patches path [] m = refl
contains-add_patches path (patch ∷ patches) m = ground (
  arith,
  contains-add_patches path patches (add_files patch.files m),
  contains-add_files path patch.files m,
  contains-append path (paths patch.files) (all_paths patches),
)

paths-to_file : (m : FileMap) → paths (map to_file m) ≡ keys m
unfolding to_file
paths-to_file [] = refl
paths-to_file ((path, acc) ∷ m) = ap (λ ps. path ∷ ps) (paths-to_file m)

-- A combination of patches has exactly one file for every new path of a file of the patches, and no
-- other file: all files with one new path become one, as do all deleted ones, whose new path is
-- empty.
pub combine_patches-paths :
    (patches : List ParsedPatch) (path : String)
    → (is_distinct (paths (combine_patches patches).files) ≡ true)
      × (contains path (paths (combine_patches patches).files) ≡ contains path (all_paths patches))
unfolding combine_patches contains
combine_patches-paths patches path =
    let files = add_patches patches [] in
    ground (
      arith,
      paths-to_file files,
      add_patches-distinct patches [] refl,
      contains-add_patches path patches [],
    )
