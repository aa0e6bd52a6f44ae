-- ===== src/BashPolicy/Shell/Quoting.antt =====
-- Words in single quotes are read back as they are.
use Prim.Native.Char.{Char, char, code}
use Prim.Native.String as Text
use Prim.Native.String.{◌++◌ as concat}
use native.Mathlib.Decide.{ℕ_discrete}
use text.Mathlib.TextLemmas.{append-nil, append_assoc, cons-append, nil-append}
use shared_context_engineeri.Common.{
  ℕ, ◌≡◌, refl, ap, ◌∙◌, String, Bool, true, Option, none, some, List, [], ◌∷◌, ◌!=◌, ◌&&◌, nat_eq,
  string_eq, String-discrete, All, arith,
}
use shared_context_engineeri.Common.Text.{is_whitespace}
use shared_context_engineeri.BashPolicy.Shell.{
  Tokenizer, start, unquoted, step, prepend, push, current_token, tokenize_from,
  tokenize_shell_command, peek,
}

abbrev pub apostrophe : Char
apostrophe = char 39 tt

abbrev pub space : Char
space = char 32 tt

-- a word, its closing quote and what follows
abbrev pub closed_with : String → String → String
closed_with Text.[] rest = Text.◌∷◌ apostrophe rest
closed_with (Text.◌∷◌ c w) rest = Text.◌∷◌ c (closed_with w rest)

-- every word in single quotes, with a space after it
abbrev pub quote_all : List String → String
quote_all [] = ""
quote_all (w ∷ ws) = Text.◌∷◌ apostrophe (closed_with w (Text.◌∷◌ space (quote_all ws)))

abbrev pub has_no_quote : String → Bool
has_no_quote Text.[] = true
has_no_quote (Text.◌∷◌ c w) = code c != 39 && has_no_quote w

-- not empty, and with no single quote
abbrev pub is_quotable : String → Bool
is_quotable w = w != "" && has_no_quote w

abbrev inside : String → Tokenizer
inside current = record start { current = current; quote = some 39 }

abbrev outside : String → Tokenizer
outside current = record start { current = current }

prepend-nil : (r : Option (List String)) → prepend [] r ≡ r
prepend-nil none = refl
prepend-nil (some r) = refl

step-closing :
    (current : String) (next : Option ℕ)
    → step (inside current) apostrophe next ≡ ([], outside current)
unfolding step unquoted is_whitespace ℕ_discrete
step-closing current next = refl

step-opening : (next : Option ℕ) → step (outside "") apostrophe next ≡ ([], inside "")
unfolding step unquoted is_whitespace ℕ_discrete
step-opening next = refl

step-space :
    (current : String) (next : Option ℕ)
    → step (outside current) space next ≡ (current_token current, outside "")
unfolding step unquoted is_whitespace ℕ_discrete
step-space current next = refl

step-inside :
    (current : String) (c : Char) (next : Option ℕ)
    → code c != 39 ≡ true
    → step (inside current) c next ≡ ([], inside (push current c))
unfolding step
step-inside current c next h = ground arith

closed_with-inside :
    (w current rest : String)
    → has_no_quote w ≡ true
    → tokenize_from (inside current) (closed_with w rest)
      ≡ tokenize_from (outside (concat current w)) rest
unfolding tokenize_from
closed_with-inside Text.[] current rest h =
    rw (step-closing current (peek rest), prepend-nil, append-nil)
closed_with-inside (Text.◌∷◌ c w) current rest h =
    let plain : code c != 39 ≡ true = ground arith in
    let others : has_no_quote w ≡ true = ground arith in
    let joined : concat (push current c) w ≡ concat current (Text.◌∷◌ c w) =
      append_assoc current (Text.◌∷◌ c "") w
      ∙ ap (concat current) (cons-append c "" w ∙ ap (Text.◌∷◌ c) (nil-append w)) in
    rw (step-inside current c (peek (closed_with w rest)) plain, prepend-nil)
      (closed_with-inside w (push current c) rest others
        ∙ ap (λ t. tokenize_from (outside t) rest) joined)

after_word :
    (w rest : String) (ws : List String)
    → current_token w ≡ w ∷ []
    → tokenize_from start rest ≡ some ws
    → tokenize_from (outside (concat "" w)) (Text.◌∷◌ space rest) ≡ some (w ∷ ws)
unfolding tokenize_from
after_word w rest ws h ih = rw (nil-append, step-space w (peek rest), h, ih)

start_empty : tokenize_from start "" ≡ some []
unfolding tokenize_from
start_empty = refl

after_opening :
    (rest : String)
    → tokenize_from start (Text.◌∷◌ apostrophe rest) ≡ tokenize_from (inside "") rest
unfolding tokenize_from
after_opening rest = rw (step-opening (peek rest), prepend-nil)

quote_all-tokens :
    (ws : List String)
    → All (λ w. is_quotable w ≡ true) ws
    → tokenize_from start (quote_all ws) ≡ some ws
unfolding String-discrete
quote_all-tokens [] h = start_empty
quote_all-tokens (Text.[] ∷ ws) h = cc (h.0)
quote_all-tokens (Text.◌∷◌ c w ∷ ws) h =
    let word = Text.◌∷◌ c w in
    let rest = Text.◌∷◌ space (quote_all ws) in
    let plain : has_no_quote word ≡ true = ground (arith, h.0) in
    after_opening (closed_with word rest)
    ∙ closed_with-inside word "" rest plain
    ∙ after_word word (quote_all ws) ws refl (quote_all-tokens ws h.1)

-- Words that are not empty and have no single quote, each put in single quotes, are read back by
-- the tokenizer as they are, whatever operators, spaces or backslashes they hold.
pub tokenize-quote_all :
    (ws : List String)
    → All (λ w. is_quotable w ≡ true) ws
    → tokenize_shell_command (quote_all ws) ≡ some ws
unfolding tokenize_shell_command
tokenize-quote_all ws h = quote_all-tokens ws h
