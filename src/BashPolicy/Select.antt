-- ===== src/BashPolicy/Select.antt =====
-- cli/src/services/bash_policy.rs: the active policies of a configuration, and the one that is
-- applied to a normalised segment. The catalog of presets, a generated file, is a parameter.
pub mod Best
use Prim.Native.Nat.{compare, Ordering}
use Prim.Native.String as Text
use shared_context_engineeri.Common.Order.{then_with, is_greater}
use shared_context_engineeri.Common.{
  ℕ, zero, suc, ◌+◌, String, Bool, true, false, not, Option, none, some, List, [], ◌∷◌, ◌++◌,
  filter, length, ◌==◌, ◌&&◌, ◌||◌, if◌then◌else◌, string_eq,
}
use shared_context_engineeri.BashPolicy.{
  PolicySource, preset, custom, PolicyMatch, NormalizedSegment, CustomBashPolicyEntry,
  BashPolicyConfig, RuntimeBashPolicyPreset,
}
use shared_context_engineeri.Common.Text.{is_empty}

abbrev pub any {ℓ} : {A : Type ℓ} → (A → Bool) → List A → Bool
any p [] = false
any p (x ∷ xs) = p x || any p xs

abbrev pub is_empty_list {ℓ} : {A : Type ℓ} → List A → Bool
is_empty_list [] = true
is_empty_list (_ ∷ _) = false

-- no prefix at all, or an empty token in it
abbrev pub is_unusable : List String → Bool
is_unusable argv_prefix = is_empty_list argv_prefix || any is_empty argv_prefix

unfoldable pub custom_policy_match : CustomBashPolicyEntry → ℕ → Option PolicyMatch
custom_policy_match policy order =
    if is_empty policy.id || is_empty policy.message || is_unusable policy.argv_prefix
    then none
    else some (record {
      id = policy.id;
      message = policy.message;
      argv_prefix = policy.argv_prefix;
      satisfied_by = policy.satisfied_by;
      source = custom;
      order = order;
    })

unfoldable pub custom_matches : ℕ → List CustomBashPolicyEntry → List PolicyMatch
unfolding custom_policy_match
custom_matches order [] = []
custom_matches order (policy ∷ policies) =
    let rest = custom_matches (order + 1) policies in
    elim (custom_policy_match policy order) [ none ↦ rest | some found ↦ found ∷ rest ]

unfoldable pub preset_matches : RuntimeBashPolicyPreset → List (List String) → List PolicyMatch
preset_matches entry [] = []
preset_matches entry (argv_prefix ∷ prefixes) =
    let rest = preset_matches entry prefixes in
    let found : PolicyMatch = record {
      id = entry.id;
      message = entry.message;
      argv_prefix = argv_prefix;
      satisfied_by = [];
      source = preset;
      order = entry.order;
    } in
    if is_unusable argv_prefix then rest else found ∷ rest

unfoldable pub find_preset : String → List RuntimeBashPolicyPreset → Option RuntimeBashPolicyPreset
find_preset id [] = none
find_preset id (entry ∷ catalog) =
    let rest = find_preset id catalog in if entry.id == id then some entry else rest

unfoldable pub all_preset_matches : List RuntimeBashPolicyPreset → List String → List PolicyMatch
unfolding find_preset preset_matches
all_preset_matches catalog [] = []
all_preset_matches catalog (id ∷ ids) =
    let rest = all_preset_matches catalog ids in
    elim (find_preset id catalog) [
      | none ↦ rest
      | some entry ↦ preset_matches entry entry.argv_prefixes ++ rest
    ]

unfoldable pub build_active_policies_from_catalog :
    BashPolicyConfig → List RuntimeBashPolicyPreset → List PolicyMatch
unfolding all_preset_matches custom_matches
build_active_policies_from_catalog policy_config catalog =
    all_preset_matches catalog policy_config.presets ++ custom_matches 0 policy_config.custom

unfoldable pub argv_starts_with : List String → List String → Bool
argv_starts_with argv [] = true
argv_starts_with [] (token ∷ tokens) = false
argv_starts_with (x ∷ argv) (token ∷ tokens) =
    let rest = argv_starts_with argv tokens in x == token && rest

unfoldable pub policy_is_satisfied_by_wrapper : PolicyMatch → List (List String) → Bool
unfolding argv_starts_with
policy_is_satisfied_by_wrapper policy wrappers =
    any (λ satisfying. any (λ wrapper. argv_starts_with wrapper satisfying) wrappers)
      policy.satisfied_by

abbrev pub compare_source : PolicySource → PolicySource → Ordering
compare_source custom preset = Ordering.lt
compare_source preset custom = Ordering.gt
compare_source _ _ = Ordering.eq

unfoldable pub compare_policy_priority : PolicyMatch → PolicyMatch → Ordering
compare_policy_priority left right =
    then_with (compare (length right.argv_prefix) (length left.argv_prefix))
      (then_with (compare_source left.source right.source) (compare left.order right.order))

-- `min_by`: the first of the least ones
unfoldable pub least_from : PolicyMatch → List PolicyMatch → PolicyMatch
unfolding compare_policy_priority
least_from best [] = best
least_from best (policy ∷ policies) =
    least_from (if is_greater (compare_policy_priority best policy) then policy else best) policies

unfoldable pub min_by_priority : List PolicyMatch → Option PolicyMatch
unfolding least_from
min_by_priority [] = none
min_by_priority (policy ∷ policies) = some (least_from policy policies)

unfoldable pub select_matching_policy : List PolicyMatch → NormalizedSegment → Option PolicyMatch
unfolding filter argv_starts_with policy_is_satisfied_by_wrapper min_by_priority
select_matching_policy active normalized = min_by_priority (
    filter (λ policy. not (policy_is_satisfied_by_wrapper policy normalized.wrappers))
      (filter (λ policy. argv_starts_with normalized.argv policy.argv_prefix) active))
