-- ===== src/BashPolicy/Normalize.antt =====
-- cli/src/services/bash_policy.rs: a segment without its wrappers. `Path::file_name`, as a text, is
-- a parameter. The recursion on nested commands runs on fuel.
pub mod Fuel
use Prim.Native.Char.{Char, code}
use Prim.Native.String as Text
use shared_context_engineeri.Common.{
  ℕ, zero, suc, ◌+◌, String, Bool, true, false, not, Option, none, some, List, [], ◌∷◌, ◌++◌, leb,
  ◌==◌, ◌&&◌, ◌||◌, if◌then◌else◌, nat_eq, string_eq,
}
use shared_context_engineeri.BashPolicy.{NormalizedSegment}
use shared_context_engineeri.Common.Text.{is_empty}
use shared_context_engineeri.BashPolicy.Shell.{parse_command_segments}

-- `WRAPPER_BINARIES` and `SHELL_BINARIES`
abbrev pub is_wrapper : String → Bool
is_wrapper x = x == "env" || x == "/usr/bin/env" || x == "command" || x == "nohup" || x == "sudo"

abbrev pub is_shell : String → Bool
is_shell x = x == "sh" || x == "bash"

-- the text before the first `=`
unfoldable pub before_equals : String → Option String
before_equals Text.[] = none
before_equals (Text.◌∷◌ c s) =
    let rest = before_equals s in
    if code c == b'='
    then some ""
    else elim rest [ none ↦ none | some name ↦ some (Text.◌∷◌ c name) ]

abbrev pub is_letter : ℕ → Bool
is_letter c = (leb b'A' c && leb c b'Z') || (leb b'a' c && leb c b'z')

abbrev pub is_digit : ℕ → Bool
is_digit c = leb b'0' c && leb c b'9'

unfoldable pub all_name_characters : String → Bool
all_name_characters Text.[] = true
all_name_characters (Text.◌∷◌ c s) =
    let rest = all_name_characters s in
    (code c == b'_' || is_letter (code c) || is_digit (code c)) && rest

abbrev pub is_name : String → Bool
is_name Text.[] = false
is_name (Text.◌∷◌ c s) = (is_letter (code c) || code c == b'_') && all_name_characters s

unfoldable pub is_env_assignment : String → Bool
unfolding before_equals all_name_characters
is_env_assignment token = elim (before_equals token) [ none ↦ false | some name ↦ is_name name ]

-- The first `drop_leading_env_assignments` and the loop over the wrapper binaries, each of which is
-- followed by another one: they drop leading tokens that are assignments or wrappers.
unfoldable pub drop_wrappers : List String → List String
unfolding is_env_assignment
drop_wrappers [] = []
drop_wrappers (token ∷ tokens) =
    let rest = drop_wrappers tokens in
    if is_env_assignment token || is_wrapper token then rest else token ∷ tokens

-- `extract_nix_command_argv`, after the executable
unfoldable pub nix_command_argv : List String → Option (List String)
nix_command_argv [] = none
nix_command_argv (token ∷ tokens) =
    let rest = nix_command_argv tokens in
    if token == "-c" || token == "--command"
    then elim tokens [ [] ↦ none | x ∷ xs ↦ some (x ∷ xs) ]
    else rest

unfoldable pub contains_c : String → Bool
contains_c Text.[] = false
contains_c (Text.◌∷◌ c s) = let rest = contains_c s in code c == b'c' || rest

abbrev pub starts_with_dash : String → Bool
starts_with_dash Text.[] = false
starts_with_dash (Text.◌∷◌ c _) = code c == b'-'

abbrev pub first : List String → Option String
first [] = none
first (x ∷ _) = some x

-- `extract_shell_command_payload`, after the executable
unfoldable pub shell_command_payload : List String → Option String
unfolding contains_c
shell_command_payload [] = none
shell_command_payload (token ∷ tokens) =
    let rest = shell_command_payload tokens in
    if is_empty token || token == "--"
    then rest
    else if token == "-c" || (starts_with_dash token && contains_c token)
    then first tokens
    else rest

unfoldable pub unwrap_nested_command_segments : String → List String → Option (List (List String))
unfolding nix_command_argv shell_command_payload
unwrap_nested_command_segments executable arguments =
    if executable == "nix"
    then elim (nix_command_argv arguments) [ none ↦ none | some argv ↦ some (argv ∷ []) ]
    else if is_shell executable
    then elim (shell_command_payload arguments) [
      | none ↦ none
      | some payload ↦ parse_command_segments payload
    ]
    else none

abbrev pub unwrap_or_empty : Option String → String
unwrap_or_empty none = ""
unwrap_or_empty (some s) = s

-- the loop over the nested segments, with the recursive call
unfoldable pub normalize_all :
    (List String → List NormalizedSegment) → List (List String) → List NormalizedSegment
normalize_all normalize [] = []
normalize_all normalize (segment ∷ segments) = normalize segment ++ normalize_all normalize segments

-- what the nested segments give, or else the command itself
abbrev pub or_itself : List NormalizedSegment → NormalizedSegment → List NormalizedSegment
or_itself [] itself = itself ∷ []
or_itself (x ∷ xs) itself = x ∷ xs

-- the nested segments, if there are any, normalised by the argument, or else the command itself
abbrev pub from_nested :
    (List String → List NormalizedSegment)
    → Option (List (List String))
    → NormalizedSegment
    → List NormalizedSegment
from_nested normalize none itself = itself ∷ []
from_nested normalize (some nested) itself = or_itself (normalize_all normalize nested) itself

module _ (file_name : String → Option String) where
  -- `normalize_segment` from the executable on, with the recursive call
  unfoldable pub normalize_stripped :
      (List String → List (List String) → List NormalizedSegment)
      → List String
      → List (List String)
      → List NormalizedSegment
  unfolding unwrap_nested_command_segments normalize_all
  normalize_stripped normalize [] wrappers = []
  normalize_stripped normalize (executable ∷ arguments) wrappers =
      let name = unwrap_or_empty (file_name executable) in
      let normalized = name ∷ arguments in
      let itself : NormalizedSegment = record { argv = normalized; wrappers = wrappers } in
      from_nested (λ s. normalize s (wrappers ++ normalized ∷ []))
        (unwrap_nested_command_segments name arguments) itself

  unfoldable pub normalize_segment : ℕ → List String → List (List String) → List NormalizedSegment
  unfolding drop_wrappers normalize_stripped
  normalize_segment zero segment wrappers = []
  normalize_segment (suc fuel) segment wrappers =
      normalize_stripped (normalize_segment fuel) (drop_wrappers segment) wrappers
