-- ===== src/Patch/Parse.antt =====
-- cli/src/services/patch.rs: `parse_patch`. The counters of lines wrap, as they do in a release
-- build. The loop over the lines runs on fuel, since a hunk takes many of them; to run out of it is
-- an error of its own. The text of an error is left out.
mod File
pub mod Body
pub mod Total
pub mod Kinds
pub mod Tests
unfoldable pub use File.*
use Prim.Native.Char.{Char, code}
use Prim.Native.String as Text
use shared_context_engineeri.Common.{
  ℕ, zero, suc, ◌+◌, String, Bool, true, false, not, Option, none, some, List, [], ◌∷◌, ◌++◌,
  length, ◌==◌, ◌!=◌, ◌&&◌, ◌||◌, if◌then◌else◌, nat_eq, string_eq,
}
use shared_context_engineeri.Common.Text.{
  is_empty, strip_prefix, starts_with, strip_or_same, trim, trim_start, trim_end, split_at,
  first_word, after_word, u64_max, parse_u64, lines_from,
}
use shared_context_engineeri.Patch.{
  FileChangeKind, TouchedLineKind, TouchedLine, PatchHunk, PatchFileChange, ParsedPatch,
}

-- why a patch is refused
pub data ParseError : Type 0 where
  no_file_header missing_close missing_old_range missing_new_range : ParseError
  invalid_start invalid_count out_of_fuel : ParseError

pub data Parsed (A : Type 0) : Type 0 where
  ok : A → Parsed A
  err : ParseError → Parsed A

infixl 5 ◌>>=◌
abbrev pub ◌>>=◌ : {A B : Type 0} → Parsed A → (A → Parsed B) → Parsed B
ok a >>= f = f a
err e >>= f = err e

abbrev pub ok_or : {A : Type 0} → Option A → ParseError → Parsed A
ok_or none e = err e
ok_or (some a) e = ok a

abbrev pub is_metadata : String → Bool
is_metadata line =
    starts_with "new file mode " line
    || starts_with "deleted file mode " line
    || starts_with "old mode " line
    || starts_with "new mode " line
    || starts_with "index " line
    || starts_with "similarity index " line
    || starts_with "rename from " line
    || starts_with "rename to " line
    || starts_with "copy from " line
    || starts_with "copy to " line

-- a line at which the body of a hunk ends
unfoldable pub is_boundary : String → Bool
unfolding strip_prefix
is_boundary line =
    starts_with "diff --git " line
    || starts_with "Index: " line
    || starts_with "===" line
    || starts_with "@@ " line
    || starts_with "--- " line
    || starts_with "+++ " line
    || is_metadata line

-- `counter += 1` on `u64`
abbrev pub next_line : ℕ → ℕ
next_line n = if n == u64_max then 0 else n + 1

-- what the body has so far: the numbers of the next old and the next new line
abbrev pub Counters : Type 0
Counters = ℕ × ℕ

-- a line of a hunk's body: what it adds to the touched lines, and the counters after it
unfoldable pub body_line : Option String → Counters → String → List TouchedLine × Counters
body_line session_id (old, new) Text.[] = ([], (next_line old, next_line new))
body_line session_id (old, new) (Text.◌∷◌ c content) =
    let touched : TouchedLineKind → ℕ → List TouchedLine = λ kind number.
      record { kind = kind; line_number = number; content = content; session_id = session_id }
      ∷ [] in
    if code c == b'+'
    then (touched TouchedLineKind.added new, (old, next_line new))
    else if code c == b'-'
    then (touched TouchedLineKind.removed old, (next_line old, new))
    else if code c == b' ' || code c == 9
    then ([], (next_line old, next_line new))
    else ([], (old, new))

-- the touched lines of a hunk's body, and the lines after it
unfoldable pub parse_body : Option String → Counters → List String → List TouchedLine × List String
unfolding is_boundary body_line
parse_body session_id counters [] = ([], [])
parse_body session_id counters (line ∷ lines) =
    let read = body_line session_id counters line in
    let rest = parse_body session_id read.1 lines in
    if is_boundary line then ([], line ∷ lines) else (read.0 ++ rest.0, rest.1)

-- `parse_range_part`: the start and the count
unfoldable pub parse_range_part : String → String → Parsed (ℕ × ℕ)
unfolding strip_prefix trim_start trim_end split_at parse_u64
parse_range_part prefix s = elim (split_at "," (trim (strip_or_same prefix s))) [
  | none ↦
      ok_or (parse_u64 (trim (strip_or_same prefix s))) invalid_start >>= λ start. ok (start, 1)
  | some (before, after) ↦ ok_or (parse_u64 before) invalid_start >>= λ start.
      ok_or (parse_u64 after) invalid_count >>= λ count. ok (start, count)
]

abbrev pub non_empty : String → Option String
non_empty Text.[] = none
non_empty (Text.◌∷◌ c s) = some (Text.◌∷◌ c s)

-- the two ranges of a hunk header
unfoldable pub parse_hunk_header : String → Parsed ((ℕ × ℕ) × (ℕ × ℕ))
unfolding split_at trim_start trim_end first_word after_word parse_range_part
parse_hunk_header rest = ok_or (split_at "@@" rest) missing_close >>= λ header.
    let range_part = trim header.0 in
    ok_or (non_empty (first_word range_part)) missing_old_range >>= λ old_range.
    ok_or (non_empty (first_word (trim_start (after_word range_part)))) missing_new_range
    >>= λ new_range. parse_range_part "-" old_range >>= λ old.
        parse_range_part "+" new_range >>= λ new. ok (old, new)

-- the hunk, and the lines after it
unfoldable pub parse_hunk_header_and_body :
    Option String → String → List String → Parsed (PatchHunk × List String)
unfolding parse_hunk_header parse_body
parse_hunk_header_and_body session_id rest lines = parse_hunk_header rest >>= λ ranges.
    let body = parse_body session_id (ranges.0.0, ranges.1.0) lines in
    ok (
      record {
        old_start = ranges.0.0;
        old_count = ranges.0.1;
        new_start = ranges.1.0;
        new_count = ranges.1.1;
        model_id = none;
        lines = body.0;
      },
      body.1,
    )

-- the file that is finished, if there is one
abbrev pub finished : Option FileBuilder → List PatchFileChange
finished none = []
finished (some fb) = build fb ∷ []

-- what a metadata line says of the file's kind
abbrev pub mark : String → FileBuilder → FileBuilder
mark line fb =
    if starts_with "new file mode " line
    then record fb { kind = some FileChangeKind.added }
    else if starts_with "deleted file mode " line
    then record fb { kind = some FileChangeKind.deleted }
    else if starts_with "rename from " line || starts_with "rename to " line
    then record fb { kind = some FileChangeKind.renamed }
    else fb

abbrev pub map_file : (FileBuilder → FileBuilder) → Option FileBuilder → Option FileBuilder
map_file f none = none
map_file f (some fb) = some (f fb)

-- a round of the loop: the files that it finishes, the file after it, and the lines left
abbrev pub Round : Type 0
Round = List PatchFileChange × (Option FileBuilder × List String)

abbrev pub add_hunk : FileBuilder → PatchHunk → FileBuilder
add_hunk fb hunk = record fb { hunks = fb.hunks ++ hunk ∷ [] }

-- a line that is no file header and no path line
unfoldable pub other_line : Option String → Option FileBuilder → String → List String → Parsed Round
unfolding strip_prefix parse_hunk_header_and_body
other_line session_id current line lines =
    let skipped : Parsed Round = ok ([], (current, lines)) in
    if is_metadata line
    then ok ([], (map_file (mark line) current, lines))
    else elim (strip_prefix "@@ " line) [
      | none ↦ skipped
      | some rest ↦ elim current [
        | none ↦ skipped
        | some fb ↦ parse_hunk_header_and_body session_id rest lines >>= λ parsed.
            ok ([], (some (add_hunk fb parsed.0), parsed.1))
      ]
    ]

-- a `---` or `+++` line, or another one
unfoldable pub path_line : Option String → Option FileBuilder → String → List String → Parsed Round
unfolding strip_prefix parse_diff_path other_line
path_line session_id current line lines = elim (strip_prefix "--- " line) [
  | some rest ↦ ok_or current no_file_header >>= λ fb.
      ok ([], (some (record fb { old_path = parse_diff_path rest }), lines))
  | none ↦ elim (strip_prefix "+++ " line) [
    | some rest ↦ ok_or current no_file_header >>= λ fb.
        ok ([], (some (record fb { new_path = parse_diff_path rest }), lines))
    | none ↦ other_line session_id current line lines
  ]
]

-- one line of the loop
unfoldable pub round : Option String → Option FileBuilder → String → List String → Parsed Round
unfolding strip_prefix parse_git_diff_header trim_start trim_end path_line build
round session_id current line lines = elim (strip_prefix "diff --git " line) [
  | some rest ↦
      let paths = parse_git_diff_header rest in
      ok (finished current, (some (new_file paths.0 paths.1), lines))
  | none ↦ elim (strip_prefix "Index: " line) [
    | some rest ↦ ok (finished current, (some (new_file (trim rest) (trim rest)), lines))
    | none ↦
        if starts_with "===" line
        then ok ([], (current, lines))
        else path_line session_id current line lines
  ]
]

unfoldable pub parse_from :
    ℕ → Option String → Option FileBuilder → List String → Parsed (List PatchFileChange)
unfolding round build
parse_from fuel session_id current [] = ok (finished current)
parse_from zero session_id current (line ∷ lines) = err out_of_fuel
parse_from (suc fuel) session_id current (line ∷ lines) =
    round session_id current line lines >>= λ r.
    parse_from fuel session_id r.1.0 r.1.1 >>= λ files. ok (r.0 ++ files)

unfoldable pub parse_patch : String → Option String → Parsed ParsedPatch
unfolding lines_from parse_from
parse_patch input session_id =
    let lines = lines_from [] input in
    parse_from (length lines) session_id none lines >>= λ files. ok (record { files = files })
