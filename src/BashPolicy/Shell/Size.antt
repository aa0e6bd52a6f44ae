-- ===== src/BashPolicy/Shell/Size.antt =====
-- The tokens of a command have at most its characters.
use Prim.Native.Char.{Char, code}
use Prim.Native.String as Text
use Prim.Native.String.{count}
use text.Mathlib.TextLemmas.{length-append, length-cons, length-nil}
use shared_context_engineeri.Common.{
  ℕ, ◌+◌, ◌≤◌, ◌≡◌, String, Bool, true, false, Option, none, some, List, [], ◌∷◌, ◌++◌, ◌==◌, ◌||◌,
  if◌then◌else◌, Bool-cases, nat_eq, string_eq, All, All-append, arith, Option-cases, inl, inr,
}
use shared_context_engineeri.Common.Text.{is_whitespace}
use shared_context_engineeri.BashPolicy.Shell.{
  Tokenizer, start, at_operator, unquoted, step, push, operator_token, is_joined, current_token,
  tokenize_from, tokenize_shell_command, peek, current_segment, segments_from, is_shell_operator,
  parse_command_segments,
}

abbrev pub total : List String → ℕ
total [] = 0
total (token ∷ tokens) = count token + total tokens

pub total-append : (a b : List String) → total (a ++ b) ≡ total a + total b
total-append [] b = omega arith
total-append (x ∷ a) b = omega (arith, total-append a b)

current_token-total : (s : String) → total (current_token s) ≡ count s
current_token-total Text.[] = omega (arith, length-nil)
current_token-total (Text.◌∷◌ c s) = omega arith

abbrev pending : Tokenizer → ℕ
pending st = if st.skipping then 1 else 0

count-push : (s : String) (c : Char) → count (push s c) ≡ count s + 1
count-push s c = omega (arith, length-append s (Text.◌∷◌ c ""), length-cons c "", length-nil)

count-operator_token :
    (c : Char) (doubled : Bool) → count (operator_token c doubled) ≡ (if doubled then 2 else 1)
count-operator_token c true =
    omega (arith, length-cons c (Text.◌∷◌ c ""), length-cons c "", length-nil)
count-operator_token c false = omega (arith, length-cons c "", length-nil)

at_operator-size :
    (st : Tokenizer) (c : Char) (doubled : Bool)
    → let r = at_operator st c doubled in
      total r.0 + count r.1.current ≤ count st.current + 1 + pending r.1
unfolding at_operator
at_operator-size st c doubled = ground (
  arith,
  length-nil,
  current_token-total st.current,
  count-operator_token c doubled,
  total-append (current_token st.current) (operator_token c doubled ∷ []),
)

abbrev Grows : Tokenizer → List String × Tokenizer → Type 0
Grows st r = total r.0 + count r.1.current ≤ count st.current + 1 + pending r.1

unquoted-Grows : (st : Tokenizer) (c : Char) (next : Option ℕ) → Grows st (unquoted st c next)
unfolding unquoted
unquoted-Grows st c next =
    let size = count-push st.current c in
    let ended = current_token-total st.current in
    let empty : count "" ≡ 0 = length-nil in
    elim (Bool-cases (code c == b'"' || code c == b'\'')) [
      | inl e ↦ rw e (omega arith)
      | inr e ↦ elim (Bool-cases (is_whitespace (code c))) [
        | inl f ↦ rw (e, f) (omega (arith, ended, empty))
        | inr f ↦ elim (Bool-cases (is_joined (code c) || code c == b';')) [
          | inl g ↦ rw (e, f, g) (at_operator-size st c _)
          | inr g ↦ rw (e, f, g) (omega (arith, size))
        ]
      ]
    ]

step-Grows :
    (st : Tokenizer) (c : Char) (next : Option ℕ)
    → let r = step st c next in
      total r.0 + count r.1.current + pending st ≤ count st.current + 1 + pending r.1
unfolding step
step-Grows st c next = ground (arith, count-push st.current c, unquoted-Grows st c next)

unquoted-pending :
    (st : Tokenizer) (c : Char) (s : String)
    → st.skipping ≡ false
    → pending (unquoted st c (peek s)).1 ≤ count s
unfolding unquoted at_operator
unquoted-pending st c Text.[] h = ground arith
unquoted-pending st c (Text.◌∷◌ d s) h = ground (arith, length-cons d s)

pending-step : (st : Tokenizer) (c : Char) (s : String) → pending (step st c (peek s)).1 ≤ count s
unfolding step
pending-step st c s = ground (arith, unquoted-pending st c s)

abbrev WithinChars : ℕ → ℕ → Option (List String) → Type 0
WithinChars k n none = Unit
WithinChars k n (some tokens) = total tokens + k ≤ n

tokenize_from-size :
    (s : String) (st : Tokenizer)
    → pending st ≤ count s
    → WithinChars (pending st) (count st.current + count s) (tokenize_from st s)
unfolding tokenize_from
tokenize_from-size Text.[] st h = ground (arith, length-nil, current_token-total st.current)
tokenize_from-size (Text.◌∷◌ c s) st h =
    let r = step st c (peek s) in
    elim (Option-cases (tokenize_from r.1 s)) [
      | inl e ↦ rw e tt
      | inr (tokens, e) ↦ ground (
        arith,
        tokenize_from-size s r.1 (pending-step st c s),
        step-Grows st c (peek s),
        length-cons c s,
        total-append r.0 tokens,
      )
    ]

current_segment-within :
    (n : ℕ) (current : List String)
    → total current ≤ n
    → All (λ s. total s ≤ n) (current_segment current)
current_segment-within n [] h = tt
current_segment-within n (token ∷ tokens) h = (h, tt)

segments_from-within :
    (n : ℕ) (tokens current : List String)
    → total current + total tokens ≤ n
    → All (λ s. total s ≤ n) (segments_from current tokens)
unfolding segments_from
segments_from-within n [] current h = current_segment-within n current (omega (arith, h))
segments_from-within n (token ∷ tokens) current h = elim (Bool-cases (is_shell_operator token)) [
  | inl e ↦ rw e (
      All-append (λ s. total s ≤ n) (current_segment current) (segments_from [] tokens)
        (current_segment-within n current (omega (arith, h)))
        (segments_from-within n tokens [] (omega (arith, h))))
  | inr e ↦ rw e (
      segments_from-within n tokens (current ++ token ∷ [])
        (omega (arith, h, total-append current (token ∷ []))))
]

-- Every segment of a command has at most the command's characters.
pub parse_command_segments-size :
    (command : String) (segments : List (List String))
    → parse_command_segments command ≡ some segments
    → All (λ s. total s ≤ count command) segments
unfolding parse_command_segments tokenize_shell_command
parse_command_segments-size command segments h = elim (Option-cases (tokenize_from start command)) [
  | inl e ↦ absurd (ground arith)
  | inr ([], e) ↦ absurd (ground arith)
  | inr (token ∷ tokens, e) ↦
      let bound : total (token ∷ tokens) ≤ count command =
        ground (arith, tokenize_from-size command start (omega arith), length-nil) in
      let found : segments_from [] (token ∷ tokens) ≡ segments = ground arith in
      rw⁻¹ found (segments_from-within (count command) (token ∷ tokens) [] (omega (arith, bound)))
]
