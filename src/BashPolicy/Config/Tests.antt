-- ===== src/BashPolicy/Config/Tests.antt =====
-- A catalog with two presets that exclude each other, and a policy.
use shared_context_engineeri.Common.{
  ◌≡◌, refl, String, true, List, [], ◌∷◌, contains, string_eq, String-discrete,
}
use shared_context_engineeri.Common.Result.{ok, err}
use shared_context_engineeri.BashPolicy.{CustomBashPolicyEntry}
use shared_context_engineeri.BashPolicy.Config.{
  BuiltinBashPolicyCatalog, exclusive_presets, all_enabled, has_conflict, presets_from,
  parse_bash_policy_presets, Words-discrete, parse_custom_bash_policies,
  parse_custom_bash_policy_argv_prefix, satisfied_by_from, parse_custom_bash_policy_entry,
  custom_from,
}
use shared_context_engineeri.BashPolicy.Config.Custom.{
  are_valid, documents, parse_custom_bash_policies-are_valid, parse_custom_bash_policies-documents,
}

abbrev catalog : BuiltinBashPolicyCatalog
catalog = record {
  presets =
      record { id = "npm"; matcher = record { argv_prefixes = [] }; message = "use bun" }
      ∷ record { id = "bun"; matcher = record { argv_prefixes = [] }; message = "use npm" }
      ∷ [];
  mutually_exclusive = ("npm" ∷ "bun" ∷ []) ∷ [];
  redundancy_warnings = [];
}

abbrev some_presets : List String
some_presets = "bun" ∷ []

abbrev policies : List CustomBashPolicyEntry
policies =
    record {
      id = "fmt";
      argv_prefix = "cargo" ∷ "fmt" ∷ [];
      satisfied_by = ("nix" ∷ []) ∷ [];
      message = "use nix";
    }
    ∷ []

both_refused : parse_bash_policy_presets catalog ("bun" ∷ "npm" ∷ []) ≡ err exclusive_presets
unfolding contains String-discrete all_enabled has_conflict presets_from parse_bash_policy_presets
both_refused = refl

parsed : parse_custom_bash_policies catalog (documents policies) ≡ ok policies
unfolding contains String-discrete Words-discrete parse_custom_bash_policies custom_from
    parse_custom_bash_policy_entry satisfied_by_from parse_custom_bash_policy_argv_prefix
parsed = refl

parse_custom_bash_policies-are_valid_example : are_valid catalog policies ≡ true
parse_custom_bash_policies-are_valid_example =
    parse_custom_bash_policies-are_valid catalog (documents policies) policies parsed

parse_custom_bash_policies-documents_example :
    parse_custom_bash_policies catalog (documents policies) ≡ ok policies
unfolding contains String-discrete Words-discrete
parse_custom_bash_policies-documents_example =
    parse_custom_bash_policies-documents catalog policies refl
