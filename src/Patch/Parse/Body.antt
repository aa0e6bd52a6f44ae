-- ===== src/Patch/Parse/Body.antt =====
-- The body of a hunk is read back as it is printed.
use Prim.Native.Char.{char}
use Prim.Native.String as Text
use native.Mathlib.Decide.{ℕ_discrete}
use shared_context_engineeri.Common.{
  ℕ, ◌+◌, ◌≤◌, ◌≡◌, refl, String, Bool, true, false, not, Option, some, List, [], ◌∷◌, ◌++◌, map,
  length, All, arith, nat_eq,
}
use shared_context_engineeri.Common.Text.{strip_prefix, starts_with, u64_max}
use shared_context_engineeri.Patch.{TouchedLine, TouchedLineKind}
use shared_context_engineeri.Patch.Parse.{
  ok, FileBuilder, is_boundary, Counters, next_line, body_line, parse_body, parse_diff_path,
  path_line, round,
}

-- a line of a hunk
pub data BodyLine : Type 0 where
  context added removed : String → BodyLine

-- the line as a unified diff has it
abbrev pub print_line : BodyLine → String
print_line (context s) = Text.◌∷◌ (char 32 tt) s
print_line (added s) = Text.◌∷◌ (char 43 tt) s
print_line (removed s) = Text.◌∷◌ (char 45 tt) s

-- The printed line is no `---` or `+++` line.
abbrev pub is_plain : BodyLine → Bool
is_plain (context s) = true
is_plain (added s) = not (starts_with "++ " s)
is_plain (removed s) = not (starts_with "-- " s)

-- the end of the input, or a line at which a hunk ends
abbrev pub is_end : List String → Bool
is_end [] = true
is_end (line ∷ _) = is_boundary line

abbrev touched_line : Option String → TouchedLineKind → ℕ → String → TouchedLine
touched_line session_id kind number content = record {
  kind = kind;
  line_number = number;
  content = content;
  session_id = session_id;
}

-- The touched lines, each with its number in the old or in the new file.
abbrev pub touched : Option String → ℕ → ℕ → List BodyLine → List TouchedLine
touched session_id old new [] = []
touched session_id old new (context s ∷ lines) = touched session_id (old + 1) (new + 1) lines
touched session_id old new (added s ∷ lines) =
    touched_line session_id TouchedLineKind.added new s ∷ touched session_id old (new + 1) lines
touched session_id old new (removed s ∷ lines) =
    touched_line session_id TouchedLineKind.removed old s ∷ touched session_id (old + 1) new lines

is_boundary-print_line :
    (line : BodyLine) → is_plain line ≡ true → is_boundary (print_line line) ≡ false
unfolding is_boundary strip_prefix ℕ_discrete
is_boundary-print_line (context s) h = refl
is_boundary-print_line (added s) h = ground arith
is_boundary-print_line (removed s) h = ground arith

next_line-succ : (n : ℕ) → n + 1 ≤ u64_max → next_line n ≡ n + 1
next_line-succ n h = ground arith

-- one printed line in front
parse_body-cons :
    (session_id : Option String) (line : BodyLine) (lines : List String) (counters : Counters)
    → is_plain line ≡ true
    → let read = body_line session_id counters (print_line line) in
      let rest = parse_body session_id read.1 lines in
      parse_body session_id counters (print_line line ∷ lines) ≡ (read.0 ++ rest.0, rest.1)
unfolding parse_body
parse_body-cons session_id line lines counters h = rw (is_boundary-print_line line h)

body_line-context :
    (session_id : Option String) (old new : ℕ) (s : String)
    → body_line session_id (old, new) (print_line (context s))
      ≡ ([], (next_line old, next_line new))
unfolding body_line ℕ_discrete
body_line-context session_id old new s = refl

body_line-added :
    (session_id : Option String) (old new : ℕ) (s : String)
    → body_line session_id (old, new) (print_line (added s))
      ≡ (touched_line session_id TouchedLineKind.added new s ∷ [], (old, next_line new))
unfolding body_line ℕ_discrete
body_line-added session_id old new s = refl

body_line-removed :
    (session_id : Option String) (old new : ℕ) (s : String)
    → body_line session_id (old, new) (print_line (removed s))
      ≡ (touched_line session_id TouchedLineKind.removed old s ∷ [], (next_line old, new))
unfolding body_line ℕ_discrete
body_line-removed session_id old new s = refl

parse_body-end :
    (session_id : Option String) (rest : List String) (counters : Counters)
    → is_end rest ≡ true
    → parse_body session_id counters rest ≡ ([], rest)
unfolding parse_body
parse_body-end session_id [] counters end = refl
parse_body-end session_id (line ∷ rest) counters end = rw end

-- The body of a hunk that is printed as a unified diff, up to a line at which a hunk ends, is read
-- back: every added and removed line with its content and its number, if no removed line's content
-- starts with `-- `, no added line's with `++ `, and the numbers stay below 2 ^ 64.
pub parse_body-print_line :
    (session_id : Option String) (lines : List BodyLine) (rest : List String) (old new : ℕ)
    → All (λ line. is_plain line ≡ true) lines
    → is_end rest ≡ true
    → old + length lines ≤ u64_max
    → new + length lines ≤ u64_max
    → parse_body session_id (old, new) (map print_line lines ++ rest)
      ≡ (touched session_id old new lines, rest)
parse_body-print_line session_id [] rest old new plain end old_room new_room =
    parse_body-end session_id rest (old, new) end
parse_body-print_line session_id (context s ∷ lines) rest old new plain end old_room new_room = rw (
  parse_body-cons session_id (context s) (map print_line lines ++ rest) (old, new) refl,
  body_line-context session_id old new s,
  next_line-succ old (omega arith),
  next_line-succ new (omega arith),
  parse_body-print_line session_id lines rest (old + 1) (new + 1) plain.1 end (omega arith)
      (omega arith),
)
parse_body-print_line session_id (added s ∷ lines) rest old new plain end old_room new_room = rw (
  parse_body-cons session_id (added s) (map print_line lines ++ rest) (old, new) plain.0,
  body_line-added session_id old new s,
  next_line-succ new (omega arith),
  parse_body-print_line session_id lines rest old (new + 1) plain.1 end (omega arith) (omega arith),
)
parse_body-print_line session_id (removed s ∷ lines) rest old new plain end old_room new_room = rw (
  parse_body-cons session_id (removed s) (map print_line lines ++ rest) (old, new) plain.0,
  body_line-removed session_id old new s,
  next_line-succ old (omega arith),
  parse_body-print_line session_id lines rest (old + 1) new plain.1 end (omega arith) (omega arith),
)

is_boundary-dashes :
    (s x : String) → strip_prefix "-- " s ≡ some x → is_boundary (print_line (removed s)) ≡ true
unfolding is_boundary strip_prefix ℕ_discrete
is_boundary-dashes s x h = ground arith

round-dashes :
    (session_id : Option String) (fb : FileBuilder) (s x : String) (lines : List String)
    → strip_prefix "-- " s ≡ some x
    → round session_id (some fb) (print_line (removed s)) lines
      ≡ ok ([], (some (record fb { old_path = parse_diff_path x }), lines))
unfolding round path_line strip_prefix ℕ_discrete
round-dashes session_id fb s x lines h = ground arith

-- A removed line whose content starts with `-- ` ends its hunk: the hunk has only the lines before
-- it, and the line is taken for a `---` line, so that the rest of its content becomes the old path
-- of the file.
pub parse_body-dashes :
    (session_id : Option String) (before : List BodyLine) (s x : String) (after : List String)
    (old new : ℕ) (fb : FileBuilder)
    → All (λ line. is_plain line ≡ true) before
    → strip_prefix "-- " s ≡ some x
    → old + length before ≤ u64_max
    → new + length before ≤ u64_max
    → let dashes = print_line (removed s) in
      (parse_body session_id (old, new) (map print_line before ++ dashes ∷ after)
        ≡ (touched session_id old new before, dashes ∷ after))
      × (round session_id (some fb) dashes after
          ≡ ok ([], (some (record fb { old_path = parse_diff_path x }), after)))
parse_body-dashes session_id before s x after old new fb plain h old_room new_room = (
  parse_body-print_line session_id before (print_line (removed s) ∷ after) old new plain
      (is_boundary-dashes s x h) old_room new_room,
  round-dashes session_id fb s x after h,
)
