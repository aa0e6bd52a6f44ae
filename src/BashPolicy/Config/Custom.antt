-- ===== src/BashPolicy/Config/Custom.antt =====
-- Which policies of the configuration's own are accepted together.
use mathlib.Core.List.{append-nil, map-append}
use shared_context_engineeri.Common.{
  ◌≡◌, refl, String, Bool, true, List, [], ◌∷◌, ◌++◌, map, ◌&&◌, append-snoc, string_eq, arith, inl,
  inr,
}
use shared_context_engineeri.Common.Result.{ok, Result-cases}
use shared_context_engineeri.Common.Distinct.{is_distinct, contains-middle, distinct-snoc}
use shared_context_engineeri.BashPolicy.{CustomBashPolicyEntry}
use shared_context_engineeri.BashPolicy.Config.{
  BuiltinBashPolicyCatalog, ParsedCustomBashPolicyEntryDocument, words_eq,
  parse_custom_bash_policy_entry, custom_from, parse_custom_bash_policies,
}
use shared_context_engineeri.BashPolicy.Config.Entry.{
  is_usable, to_document, entry-accepts, entry-accepted,
}

abbrev pub all_usable : BuiltinBashPolicyCatalog → List CustomBashPolicyEntry → Bool
all_usable catalog [] = true
all_usable catalog (policy ∷ policies) = is_usable catalog policy && all_usable catalog policies

abbrev pub ids : List CustomBashPolicyEntry → List String
ids policies = map (λ existing. existing.id) policies

abbrev pub prefixes : List CustomBashPolicyEntry → List (List String)
prefixes policies = map (λ existing. existing.argv_prefix) policies

-- Every policy is usable, and no two have the same id or the same prefix.
abbrev pub are_valid : BuiltinBashPolicyCatalog → List CustomBashPolicyEntry → Bool
are_valid catalog policies =
    all_usable catalog policies && is_distinct (ids policies) && is_distinct (prefixes policies)

abbrev pub documents : List CustomBashPolicyEntry → List ParsedCustomBashPolicyEntryDocument
documents policies = map to_document policies

custom_from-accepts :
    (catalog : BuiltinBashPolicyCatalog) (before policies : List CustomBashPolicyEntry)
    → all_usable catalog policies ≡ true
    → is_distinct (ids (before ++ policies)) ≡ true
    → is_distinct (prefixes (before ++ policies)) ≡ true
    → custom_from catalog before (prefixes before) (documents policies) ≡ ok (before ++ policies)
unfolding custom_from
custom_from-accepts catalog before [] u d p = ground (arith, append-nil before)
custom_from-accepts catalog before (policy ∷ policies) u d p = ground (
  arith,
  entry-accepts catalog policy,
  custom_from-accepts catalog (before ++ policy ∷ []) policies,
  append-snoc before policy policies,
  map-append (λ (e : CustomBashPolicyEntry). e.id) before (policy ∷ policies),
  map-append (λ (e : CustomBashPolicyEntry). e.argv_prefix) before (policy ∷ policies),
  map-append (λ (e : CustomBashPolicyEntry). e.argv_prefix) before (policy ∷ []),
  contains-middle policy.id (ids before) (ids policies),
  contains-middle policy.argv_prefix (prefixes before) (prefixes policies),
  u,
  d,
  p,
)

all_usable-snoc :
    (catalog : BuiltinBashPolicyCatalog) (policies : List CustomBashPolicyEntry)
    (policy : CustomBashPolicyEntry)
    → all_usable catalog policies ≡ true
    → is_usable catalog policy ≡ true
    → all_usable catalog (policies ++ policy ∷ []) ≡ true
all_usable-snoc catalog [] policy h k = ground (arith, k)
all_usable-snoc catalog (first ∷ policies) policy h k =
    ground (arith, all_usable-snoc catalog policies policy, h, k)

custom_from-accepted :
    (catalog : BuiltinBashPolicyCatalog) (before : List CustomBashPolicyEntry)
    (items : List ParsedCustomBashPolicyEntryDocument) (policies : List CustomBashPolicyEntry)
    → custom_from catalog before (prefixes before) items ≡ ok policies
    → are_valid catalog before ≡ true
    → are_valid catalog policies ≡ true
unfolding custom_from
custom_from-accepted catalog before [] policies h v = ground (arith, h, v)
custom_from-accepted catalog before (item ∷ items) policies h v =
    elim (Result-cases (parse_custom_bash_policy_entry catalog item)) [
      | inl (policy, e) ↦ ground (
        arith,
        custom_from-accepted catalog (before ++ policy ∷ []) items policies,
        all_usable-snoc catalog before policy,
        entry-accepted catalog item policy e,
        map-append (λ (f : CustomBashPolicyEntry). f.id) before (policy ∷ []),
        map-append (λ (f : CustomBashPolicyEntry). f.argv_prefix) before (policy ∷ []),
        distinct-snoc policy.id (ids before),
        distinct-snoc policy.argv_prefix (prefixes before),
        e,
        h,
        v,
      )
      | inr (f, e) ↦ ground (arith, e, h)
    ]

-- The policies that are accepted are valid: no id is a preset's, no message, no prefix and no word
-- is empty, and no two policies have the same id or the same prefix.
pub parse_custom_bash_policies-are_valid :
    (catalog : BuiltinBashPolicyCatalog) (items : List ParsedCustomBashPolicyEntryDocument)
    (policies : List CustomBashPolicyEntry)
    → parse_custom_bash_policies catalog items ≡ ok policies
    → are_valid catalog policies ≡ true
unfolding parse_custom_bash_policies
parse_custom_bash_policies-are_valid catalog items policies h =
    custom_from-accepted catalog [] items policies h refl

-- Valid policies are read back from their documents.
pub parse_custom_bash_policies-documents :
    (catalog : BuiltinBashPolicyCatalog) (policies : List CustomBashPolicyEntry)
    → are_valid catalog policies ≡ true
    → parse_custom_bash_policies catalog (documents policies) ≡ ok policies
unfolding parse_custom_bash_policies
parse_custom_bash_policies-documents catalog policies v =
    ground (arith, custom_from-accepts catalog [] policies, v)
