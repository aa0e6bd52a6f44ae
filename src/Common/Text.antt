-- ===== src/Common/Text.antt =====
-- Operations of `str` and `char`, on native strings.
use Prim.Native.Char.{Char, code}
use Prim.Native.String as Text
use Prim.Native.Nat.{ℕ, zero, suc, ◌+◌, ◌-◌, ◌*◌, ◌/◌, ◌%◌}
use Prim.Native.String.{String}
use mathlib.Core.Bool.{Bool, true, false, ◌&&◌, ◌||◌}
use mathlib.Core.Option.{Option, none, some}
use mathlib.Core.List.{List, [], ◌∷◌}
use shared_context_engineeri.Common.Tests.{leb, ◌==◌, if◌then◌else◌, is_some_and, nat_eq}

-- `char::is_whitespace`: the property White_Space
unfoldable pub is_whitespace : ℕ → Bool
is_whitespace c =
    (leb 9 c && leb c 13)
    || c == 32
    || c == 133
    || c == 160
    || c == 5760
    || (leb 8192 c && leb c 8202)
    || c == 8232
    || c == 8233
    || c == 8239
    || c == 8287
    || c == 12288

abbrev pub is_empty : String → Bool
is_empty Text.[] = true
is_empty (Text.◌∷◌ _ _) = false

-- `strip_prefix`: the prefix first
unfoldable pub strip_prefix : String → String → Option String
strip_prefix Text.[] s = some s
strip_prefix (Text.◌∷◌ c p) Text.[] = none
strip_prefix (Text.◌∷◌ c p) (Text.◌∷◌ d s) =
    let rest = strip_prefix p s in if code c == code d then rest else none

abbrev pub starts_with : String → String → Bool
starts_with prefix s = is_some_and (λ _. true) (strip_prefix prefix s)

abbrev pub strip_or_same : String → String → String
strip_or_same prefix s = elim (strip_prefix prefix s) [ none ↦ s | some rest ↦ rest ]

unfoldable pub trim_start : String → String
trim_start Text.[] = ""
trim_start (Text.◌∷◌ c s) =
    let rest = trim_start s in if is_whitespace (code c) then rest else Text.◌∷◌ c s

unfoldable pub trim_end : String → String
trim_end Text.[] = ""
trim_end (Text.◌∷◌ c s) =
    let rest = trim_end s in if is_empty rest && is_whitespace (code c) then "" else Text.◌∷◌ c rest

abbrev pub trim : String → String
trim s = trim_end (trim_start s)

-- `find`, as the texts before and after the first occurrence
unfoldable pub split_at : String → String → Option (String × String)
unfolding strip_prefix
split_at pattern Text.[] = elim (strip_prefix pattern "") [
  | some rest ↦ some ("", rest)
  | none ↦ none
]
split_at pattern (Text.◌∷◌ c s) =
    let later = split_at pattern s in
    elim (strip_prefix pattern (Text.◌∷◌ c s)) [
      | some rest ↦ some ("", rest)
      | none ↦ elim later [ some (before, after) ↦ some (Text.◌∷◌ c before, after) | none ↦ none ]
    ]

-- `split_whitespace`
unfoldable pub first_word : String → String
first_word Text.[] = ""
first_word (Text.◌∷◌ c s) =
    let rest = first_word s in if is_whitespace (code c) then "" else Text.◌∷◌ c rest

unfoldable pub after_word : String → String
after_word Text.[] = ""
after_word (Text.◌∷◌ c s) = let rest = after_word s in if is_whitespace (code c) then s else rest

abbrev pub u64_max : ℕ
u64_max = 18446744073709551615

abbrev pub is_digit : ℕ → Bool
is_digit c = leb b'0' c && leb c b'9'

-- the digits after those that gave `value`
unfoldable pub digits_from : ℕ → String → Option ℕ
digits_from value Text.[] = some value
digits_from value (Text.◌∷◌ c s) =
    let next = value * 10 + (code c - b'0') in
    let rest = digits_from next s in if is_digit (code c) && leb next u64_max then rest else none

-- `str::parse::<u64>`, which takes a sign `+`
unfoldable pub parse_u64 : String → Option ℕ
unfolding digits_from strip_prefix
parse_u64 s =
    let digits = strip_or_same "+" s in if is_empty digits then none else digits_from 0 digits

-- `str::lines`: split at each `\n`, less a `\r` before it; nothing after the last `\n`
abbrev pub strip_return : List Char → List Char
strip_return [] = []
strip_return (c ∷ cs) = if code c == 13 then cs else c ∷ cs

unfoldable pub to_text : List Char → String → String
to_text [] s = s
to_text (c ∷ cs) s = to_text cs (Text.◌∷◌ c s)

-- `line` holds the characters of the line so far, the last one first
unfoldable pub lines_from : List Char → String → List String
unfolding to_text
lines_from [] Text.[] = []
lines_from (c ∷ cs) Text.[] = to_text (c ∷ cs) "" ∷ []
lines_from line (Text.◌∷◌ c s) =
    if code c == 10
    then to_text (strip_return line) "" ∷ lines_from [] s
    else lines_from (c ∷ line) s

abbrev pub digit_text : ℕ → String
digit_text n =
    if n == 0
    then "0"
    else if n == 1
    then "1"
    else if n == 2
    then "2"
    else if n == 3
    then "3"
    else if n == 4
    then "4"
    else if n == 5
    then "5"
    else if n == 6
    then "6"
    else if n == 7
    then "7"
    else if n == 8
    then "8"
    else "9"

-- The last digits of a number, as many as the fuel has at most.
unfoldable pub decimal_from : ℕ → ℕ → String → String
decimal_from zero n digits = digits
decimal_from (suc fuel) n digits =
    let more = decimal_from fuel (n / 10) (Text.◌++◌ (digit_text (n % 10)) digits) in
    if n == 0 then digits else more

-- `Display` of a `u64`, which has at most 20 digits
abbrev pub decimal : ℕ → String
decimal n = if n == 0 then "0" else decimal_from 20 n ""
