-- ===== src/BashPolicy/Shell.antt =====
-- cli/src/services/bash_policy.rs: the tokenizer and the split of a command at its operators.
-- One round of the loop is `step`; it lists the tokens that the round pushes. `chars.peek()` is an
-- argument, and `chars.next()` in a round is the flag `skipping`.
pub mod Quoting
pub mod Size
use Prim.Native.Char.{Char, char, code}
use Prim.Native.String as Text
use Prim.Native.String.{◌++◌ as concat}
use shared_context_engineeri.Common.Text.{is_whitespace, is_empty}
use shared_context_engineeri.Common.{
  ℕ, zero, suc, ◌+◌, String, Bool, true, false, not, Option, none, some, List, [], ◌∷◌, ◌++◌, leb,
  ◌==◌, ◌&&◌, ◌||◌, if◌then◌else◌, is_some_and, nat_eq, string_eq,
}

-- `current.push(c)`
abbrev pub push : String → Char → String
push s c = concat s (Text.◌∷◌ c "")

-- `character.to_string()`, or the character twice
abbrev pub operator_token : Char → Bool → String
operator_token c doubled = Text.◌∷◌ c (if doubled then Text.◌∷◌ c "" else "")

-- `push_current_token`
abbrev pub current_token : String → List String
current_token Text.[] = []
current_token (Text.◌∷◌ c s) = Text.◌∷◌ c s ∷ []

pub record Tokenizer : Type 0 where
  pub current : String
  pub quote : Option ℕ
  pub escaping : Bool
  pub skipping : Bool

unfoldable pub is_joined : ℕ → Bool
is_joined c = c == b'&' || c == b'|'

-- an operator outside quotes ends the token and is one itself, with its repetition if it has one
unfoldable pub at_operator : Tokenizer → Char → Bool → List String × Tokenizer
at_operator st c doubled = (
  current_token st.current ++ operator_token c doubled ∷ [],
  record st { current = ""; skipping = doubled },
)

abbrev pub pushed : Tokenizer → Char → List String × Tokenizer
pushed st c = ([], record st { current = push st.current c })

-- a character inside the quotes `q`
abbrev pub quoted : Tokenizer → ℕ → Char → List String × Tokenizer
quoted st q c = if code c == q then ([], record st { quote = none }) else pushed st c

-- a character outside quotes
unfoldable pub unquoted : Tokenizer → Char → Option ℕ → List String × Tokenizer
unfolding at_operator is_whitespace is_joined
unquoted st c next =
    if code c == b'"' || code c == b'\''
    then ([], record st { quote = some (code c) })
    else if is_whitespace (code c)
    then (current_token st.current, record st { current = "" })
    else if is_joined (code c) || code c == b';'
    then at_operator st c (is_joined (code c) && is_some_and (λ n. n == code c) next)
    else pushed st c

unfoldable pub step : Tokenizer → Char → Option ℕ → List String × Tokenizer
unfolding unquoted
step st c next =
    if st.skipping
    then ([], record st { skipping = false })
    else if st.escaping
    then ([], record st { current = push st.current c; escaping = false })
    else if code c == b'\\' && not (is_some_and (λ q. q == b'\'') st.quote)
    then ([], record st { escaping = true })
    else elim st.quote [ some q ↦ quoted st q c | none ↦ unquoted st c next ]

abbrev pub peek : String → Option ℕ
peek Text.[] = none
peek (Text.◌∷◌ c _) = some (code c)

abbrev pub finish : Tokenizer → Option (List String)
finish st =
    if st.escaping || is_some_and (λ _. true) st.quote
    then none
    else some (current_token st.current)

abbrev pub prepend : List String → Option (List String) → Option (List String)
prepend pushed none = none
prepend pushed (some rest) = some (pushed ++ rest)

unfoldable pub tokenize_from : Tokenizer → String → Option (List String)
unfolding step
tokenize_from st Text.[] = finish st
tokenize_from st (Text.◌∷◌ c s) =
    let (pushed, next) = step st c (peek s) in prepend pushed (tokenize_from next s)

abbrev pub start : Tokenizer
start = record { current = ""; quote = none; escaping = false; skipping = false }

unfoldable pub tokenize_shell_command : String → Option (List String)
unfolding tokenize_from
tokenize_shell_command command = tokenize_from start command

abbrev pub is_shell_operator : String → Bool
is_shell_operator token =
    token == "|" || token == "&&" || token == "||" || token == ";" || token == "&"

-- the segment so far, if it has tokens
abbrev pub current_segment : List String → List (List String)
current_segment [] = []
current_segment (token ∷ tokens) = (token ∷ tokens) ∷ []

-- the loop over the tokens, with the segment so far
unfoldable pub segments_from : List String → List String → List (List String)
segments_from current [] = current_segment current
segments_from current (token ∷ tokens) =
    let ended = segments_from [] tokens in
    let longer = segments_from (current ++ token ∷ []) tokens in
    if is_shell_operator token then current_segment current ++ ended else longer

unfoldable pub parse_command_segments : String → Option (List (List String))
unfolding tokenize_shell_command segments_from
parse_command_segments command = elim (tokenize_shell_command command) [
  | none ↦ none
  | some [] ↦ none
  | some (token ∷ tokens) ↦ some (segments_from [] (token ∷ tokens))
]
