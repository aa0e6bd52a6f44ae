-- ===== src/BashPolicy/Config/Entry.antt =====
-- Which policy of the configuration's own is accepted.
use shared_context_engineeri.Common.{
  ◌≡◌, refl, String, Bool, true, false, not, Option, none, some, List, [], ◌∷◌, ◌&&◌, string_eq,
  arith, Option-cases, inl, inr,
}
use shared_context_engineeri.Common.Text.{is_empty}
use shared_context_engineeri.Common.Result.{ok, Result-cases}
use shared_context_engineeri.BashPolicy.{CustomBashPolicyEntry}
use shared_context_engineeri.BashPolicy.Config.{
  BuiltinBashPolicyCatalog, ParsedCustomBashPolicyMatchDocument,
  ParsedCustomBashPolicyEntryDocument, words_eq, is_builtin_bash_policy_preset_id,
  parse_custom_bash_policy_argv_prefix, satisfied_by_from, parse_custom_bash_policy_satisfied_by,
  non_empty_prefix, parse_custom_bash_policy_match, parse_custom_bash_policy_entry,
}

abbrev pub has_words : List String → Bool
has_words [] = true
has_words (word ∷ words) = not (is_empty word) && has_words words

-- some words, none of them empty
abbrev pub is_prefix : List String → Bool
is_prefix [] = false
is_prefix (word ∷ words) = not (is_empty word) && has_words words

abbrev pub are_prefixes : List (List String) → Bool
are_prefixes [] = true
are_prefixes (words ∷ rest) = is_prefix words && are_prefixes rest

-- The id is no preset's, and no part is empty.
abbrev pub is_usable : BuiltinBashPolicyCatalog → CustomBashPolicyEntry → Bool
is_usable catalog policy =
    not (is_builtin_bash_policy_preset_id catalog policy.id)
    && not (is_empty policy.message)
    && is_prefix policy.argv_prefix
    && are_prefixes policy.satisfied_by

-- the document of a policy
abbrev pub to_document : CustomBashPolicyEntry → ParsedCustomBashPolicyEntryDocument
to_document policy = record {
  id = some policy.id;
  matcher = some (record { argv_prefix = some policy.argv_prefix });
  satisfied_by = some policy.satisfied_by;
  message = some policy.message;
}

argv_prefix-accepts :
    (words : List String)
    → has_words words ≡ true
    → parse_custom_bash_policy_argv_prefix words ≡ ok words
unfolding parse_custom_bash_policy_argv_prefix
argv_prefix-accepts [] h = refl
argv_prefix-accepts (word ∷ words) h = ground (arith, argv_prefix-accepts words, h)

argv_prefix-accepted :
    (words found : List String)
    → parse_custom_bash_policy_argv_prefix words ≡ ok found
    → has_words found ≡ true
unfolding parse_custom_bash_policy_argv_prefix
argv_prefix-accepted [] found h = ground (arith, h)
argv_prefix-accepted (word ∷ words) found h =
    elim (Result-cases (parse_custom_bash_policy_argv_prefix words)) [
      | inl (more, e) ↦ ground (arith, argv_prefix-accepted words more e, e, h)
      | inr (e, k) ↦ ground (arith, k, h)
    ]

non_empty-accepted :
    (words found : List String) → non_empty_prefix words ≡ ok found → is_prefix found ≡ true
unfolding parse_custom_bash_policy_argv_prefix
non_empty-accepted [] found h = ground (arith, h)
non_empty-accepted (word ∷ words) found h =
    elim (Result-cases (parse_custom_bash_policy_argv_prefix words)) [
      | inl (more, e) ↦ ground (arith, argv_prefix-accepted words more e, e, h)
      | inr (e, k) ↦ ground (arith, k, h)
    ]

match-accepted :
    (matcher : Option ParsedCustomBashPolicyMatchDocument) (found : List String)
    → parse_custom_bash_policy_match matcher ≡ ok found
    → is_prefix found ≡ true
match-accepted none found h = ground (arith, h)
match-accepted (some matcher) found h = elim (Option-cases matcher.argv_prefix) [
  | inl e ↦ ground (arith, e, h)
  | inr (words, e) ↦ ground (arith, non_empty-accepted words found, e, h)
]

satisfied_by-accepts :
    (wrappers : List (List String))
    → are_prefixes wrappers ≡ true
    → satisfied_by_from wrappers ≡ ok wrappers
unfolding satisfied_by_from
satisfied_by-accepts [] h = refl
satisfied_by-accepts ([] ∷ wrappers) h = ground (arith, h)
satisfied_by-accepts ((word ∷ words) ∷ wrappers) h =
    ground (arith, argv_prefix-accepts (word ∷ words), satisfied_by-accepts wrappers, h)

satisfied_by-accepted :
    (wrappers found : List (List String))
    → satisfied_by_from wrappers ≡ ok found
    → are_prefixes found ≡ true
unfolding satisfied_by_from
satisfied_by-accepted [] found h = ground (arith, h)
satisfied_by-accepted ([] ∷ wrappers) found h = ground (arith, h)
satisfied_by-accepted ((word ∷ words) ∷ wrappers) found h =
    elim (Result-cases (non_empty_prefix (word ∷ words))) [
      | inl (prefix, e) ↦ elim (Result-cases (satisfied_by_from wrappers)) [
        | inl (more, k) ↦ ground (
          arith,
          non_empty-accepted (word ∷ words) prefix e,
          satisfied_by-accepted wrappers more k,
          e,
          k,
          h,
        )
        | inr (f, k) ↦ ground (arith, e, k, h)
      ]
      | inr (f, e) ↦ ground (arith, e, h)
    ]

parse_satisfied_by-accepted :
    (wrappers : Option (List (List String))) (found : List (List String))
    → parse_custom_bash_policy_satisfied_by wrappers ≡ ok found
    → are_prefixes found ≡ true
parse_satisfied_by-accepted none found h = ground (arith, h)
parse_satisfied_by-accepted (some wrappers) found h = satisfied_by-accepted wrappers found h

non_empty-accepts :
    (words : List String) → is_prefix words ≡ true → non_empty_prefix words ≡ ok words
non_empty-accepts [] h = ground (arith, h)
non_empty-accepts (word ∷ words) h = argv_prefix-accepts (word ∷ words) h

pub entry-accepts :
    (catalog : BuiltinBashPolicyCatalog) (policy : CustomBashPolicyEntry)
    → is_usable catalog policy ≡ true
    → parse_custom_bash_policy_entry catalog (to_document policy) ≡ ok policy
unfolding parse_custom_bash_policy_entry
entry-accepts catalog policy h =
    ground
      (arith, non_empty-accepts policy.argv_prefix, satisfied_by-accepts policy.satisfied_by, h)

pub entry-accepted :
    (catalog : BuiltinBashPolicyCatalog) (item : ParsedCustomBashPolicyEntryDocument)
    (policy : CustomBashPolicyEntry)
    → parse_custom_bash_policy_entry catalog item ≡ ok policy
    → is_usable catalog policy ≡ true
unfolding parse_custom_bash_policy_entry
entry-accepted catalog item policy h =
    elim (Result-cases (parse_custom_bash_policy_match item.matcher)) [
      | inl (words, e) ↦
          elim (Result-cases (parse_custom_bash_policy_satisfied_by item.satisfied_by)) [
            | inl (wrappers, k) ↦ ground (
              arith,
              match-accepted item.matcher words e,
              parse_satisfied_by-accepted item.satisfied_by wrappers k,
              e,
              k,
              h,
            )
            | inr (f, k) ↦ ground (arith, e, k, h)
          ]
      | inr (f, e) ↦ ground (arith, e, h)
    ]
