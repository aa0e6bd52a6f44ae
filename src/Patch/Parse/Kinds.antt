-- ===== src/Patch/Parse/Kinds.antt =====
-- The kind of a parsed file and its paths.
use shared_context_engineeri.Common.{
  ℕ, zero, suc, ◌≡◌, refl, String, Bool, true, Option, none, some, List, [], ◌∷◌, ◌++◌, All,
  All-append, arith, length,
}
use shared_context_engineeri.Common.Text.{is_empty, lines_from}
use shared_context_engineeri.Patch.{FileChangeKind, PatchFileChange, ParsedPatch}
use shared_context_engineeri.Patch.Parse.{
  Parsed, ok, err, ◌>>=◌, FileBuilder, inferred_kind, normalize_paths_for_kind, build, finished,
  Round, other_line, path_line, round, parse_from, parse_patch,
}

-- An added file has no old path, and a deleted one no new path.
abbrev pub is_normal : PatchFileChange → Bool
is_normal file = elim file.kind [
  | FileChangeKind.added ↦ is_empty file.old_path
  | FileChangeKind.deleted ↦ is_empty file.new_path
  | FileChangeKind.renamed ↦ true
  | FileChangeKind.modified ↦ true
]

abbrev AllNormal : List PatchFileChange → Type 0
AllNormal = All (λ file. is_normal file ≡ true)

build-normal : (fb : FileBuilder) → is_normal (build fb) ≡ true
unfolding build
build-normal fb = by_kind (inferred_kind fb)
  where
    by_kind :
        (kind : FileChangeKind)
        → is_normal (record {
          old_path = (normalize_paths_for_kind fb.old_path fb.new_path kind).0;
          new_path = (normalize_paths_for_kind fb.old_path fb.new_path kind).1;
          kind = kind;
          hunks = fb.hunks;
        })
          ≡ true
    by_kind FileChangeKind.added = refl
    by_kind FileChangeKind.deleted = refl
    by_kind FileChangeKind.renamed = refl
    by_kind FileChangeKind.modified = refl

finished-normal : (current : Option FileBuilder) → AllNormal (finished current)
finished-normal none = tt
finished-normal (some fb) = (build-normal fb, tt)

abbrev RoundNormal : Parsed Round → Type 0
RoundNormal (ok r) = AllNormal r.0
RoundNormal (err e) = Unit

other_line-RoundNormal :
    (session_id : Option String) (current : Option FileBuilder) (line : String)
    (lines : List String)
    → RoundNormal (other_line session_id current line lines)
unfolding other_line
other_line-RoundNormal session_id current line lines = ground arith

path_line-RoundNormal :
    (session_id : Option String) (current : Option FileBuilder) (line : String)
    (lines : List String)
    → RoundNormal (path_line session_id current line lines)
unfolding path_line
path_line-RoundNormal session_id current line lines =
    ground (arith, other_line-RoundNormal session_id current line lines)

round-RoundNormal :
    (session_id : Option String) (current : Option FileBuilder) (line : String)
    (lines : List String)
    → RoundNormal (round session_id current line lines)
unfolding round
round-RoundNormal session_id current line lines =
    ground (arith, path_line-RoundNormal session_id current line lines, finished-normal current)

abbrev FilesNormal : Parsed (List PatchFileChange) → Type 0
FilesNormal (ok files) = AllNormal files
FilesNormal (err e) = Unit

parse_from-FilesNormal :
    (fuel : ℕ) (session_id : Option String) (current : Option FileBuilder) (lines : List String)
    → FilesNormal (parse_from fuel session_id current lines)
unfolding parse_from
parse_from-FilesNormal fuel session_id current [] = finished-normal current
parse_from-FilesNormal zero session_id current (line ∷ lines) = tt
parse_from-FilesNormal (suc fuel) session_id current (line ∷ lines) =
    after (parse_from fuel session_id) (parse_from-FilesNormal fuel session_id)
      (round session_id current line lines) (round-RoundNormal session_id current line lines)
  where
    join :
        (files : List PatchFileChange) (m : Parsed (List PatchFileChange))
        → AllNormal files
        → FilesNormal m
        → FilesNormal (m >>= λ more. ok (files ++ more))
    join files (ok more) h k = All-append _ files more h k
    join files (err e) h k = tt

    after :
        (continue : Option FileBuilder → List String → Parsed (List PatchFileChange))
        → ((next : Option FileBuilder) (left : List String) → FilesNormal (continue next left))
        → (m : Parsed Round) → RoundNormal m
        → FilesNormal (m >>= λ r. continue r.1.0 r.1.1 >>= λ files. ok (r.0 ++ files))
    after continue ih (ok r) h = join r.0 (continue r.1.0 r.1.1) h (ih r.1.0 r.1.1)
    after continue ih (err e) h = tt

-- Every file of a parsed patch whose kind is added has an empty old path, and every one whose kind
-- is deleted an empty new path.
pub parse_patch-is_normal :
    (input : String) (session_id : Option String) (patch : ParsedPatch)
    → parse_patch input session_id ≡ ok patch
    → All (λ file. is_normal file ≡ true) patch.files
unfolding parse_patch
parse_patch-is_normal input session_id patch h =
    let lines = lines_from [] input in
    read (parse_from (length lines) session_id none lines)
      (parse_from-FilesNormal (length lines) session_id none lines) h
  where
    read :
        (m : Parsed (List PatchFileChange))
        → FilesNormal m
        → (m >>= λ files. ok (record { files = files })) ≡ ok patch
        → AllNormal patch.files
    read (ok files) k h = ground (arith, k, h)
    read (err e) k h = ground (arith, h)
