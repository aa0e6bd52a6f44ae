-- ===== src/BashPolicy/Evaluate/Tests.antt =====
-- A policy against `cargo fmt`, satisfied by `nix`, and commands that do and do not meet it.
use native.Mathlib.Decide.{ℕ_discrete}
use shared_context_engineeri.Common.{
  ◌≡◌, refl, String, true, false, Option, some, [], ◌∷◌, All, filter, ◌==◌, false, ◌⊎◌,
  if◌then◌else◌, string_eq, String-discrete, arith,
}
use shared_context_engineeri.BashPolicy.{
  custom, PolicyMatch, NormalizedSegment, blocked, CustomBashPolicyEntry, BashPolicyConfig,
}
use shared_context_engineeri.Common.Text.{is_whitespace}
use shared_context_engineeri.BashPolicy.Shell.{
  is_joined, at_operator, unquoted, step, tokenize_from, tokenize_shell_command, segments_from,
  parse_command_segments,
}
use shared_context_engineeri.BashPolicy.Shell.Quoting.{tokenize-quote_all}
use shared_context_engineeri.BashPolicy.Normalize.{
  before_equals, all_name_characters, is_env_assignment, drop_wrappers, nix_command_argv,
  contains_c, shell_command_payload, unwrap_nested_command_segments, normalize_all,
  normalize_stripped, normalize_segment,
}
use shared_context_engineeri.BashPolicy.Select.{
  any, custom_policy_match, custom_matches, preset_matches, find_preset, all_preset_matches,
  build_active_policies_from_catalog, argv_starts_with, policy_is_satisfied_by_wrapper,
  compare_policy_priority, least_from, min_by_priority, select_matching_policy,
}
use shared_context_engineeri.BashPolicy.Select.Best.{
  IsIn, applies, ComesFirst, select_matching_policy-some,
}
use shared_context_engineeri.BashPolicy.Evaluate.{
  evaluate_normalized, normalized_segments, evaluate_with, evaluate_bash_command_policy,
  active_policies,
}
use shared_context_engineeri.BashPolicy.Evaluate.Decision.{
  is_blocked, is_forbidden, or_none, evaluate_with-fuel, evaluate_bash_command_policy-blocked,
}

machinery : Unit {0}
unfolding filter ℕ_discrete String-discrete is_whitespace is_joined at_operator unquoted step
    tokenize_from tokenize_shell_command segments_from parse_command_segments before_equals
    all_name_characters is_env_assignment drop_wrappers nix_command_argv contains_c
    shell_command_payload unwrap_nested_command_segments normalize_all normalize_stripped
    normalize_segment custom_policy_match custom_matches preset_matches find_preset
    all_preset_matches build_active_policies_from_catalog argv_starts_with
    policy_is_satisfied_by_wrapper compare_policy_priority least_from min_by_priority
    select_matching_policy evaluate_normalized normalized_segments evaluate_with
    evaluate_bash_command_policy
machinery = tt

abbrev base_name : String → Option String
base_name path = if path == "/usr/bin/cargo" then some "cargo" else some path

abbrev entry : CustomBashPolicyEntry
entry = record {
  id = "use-nix";
  argv_prefix = "cargo" ∷ "fmt" ∷ [];
  satisfied_by = ("nix" ∷ "shell" ∷ []) ∷ [];
  message = "Use nix.";
}

abbrev settings : Option BashPolicyConfig
settings = some (record { presets = []; custom = entry ∷ [] })

abbrev policy : PolicyMatch
policy = record {
  id = "use-nix";
  message = "Use nix.";
  argv_prefix = "cargo" ∷ "fmt" ∷ [];
  satisfied_by = ("nix" ∷ "shell" ∷ []) ∷ [];
  source = custom;
  order = 0;
}

nested :
    evaluate_bash_command_policy base_name []
      "nix develop -c sh -c 'cd cli && FOO=1 sudo /usr/bin/cargo fmt --check'" settings
    ≡ blocked ("cargo" ∷ "fmt" ∷ "--check" ∷ []) policy
unfolding machinery
nested = refl

satisfied :
    is_blocked (evaluate_bash_command_policy base_name [] "nix shell x -c cargo fmt" settings)
    ≡ false
unfolding machinery
satisfied = refl

-- A quoted operator ends a segment, so what follows it is matched as a command of its own.
quoted_operator :
    evaluate_bash_command_policy base_name [] "echo '|' cargo fmt" settings
    ≡ blocked ("cargo" ∷ "fmt" ∷ []) policy
unfolding machinery
quoted_operator = refl

evaluate_bash_command_policy-blocked_example :
    is_blocked (evaluate_bash_command_policy base_name [] "ls; cargo fmt" settings)
    ≡ any
        (is_forbidden (active_policies [] settings))
        (normalized_segments base_name 14 (or_none (parse_command_segments "ls; cargo fmt")))
evaluate_bash_command_policy-blocked_example =
    evaluate_bash_command_policy-blocked base_name [] "ls; cargo fmt" settings

evaluate_with-fuel_example :
    evaluate_with base_name 50 "ls; cargo fmt" (policy ∷ [])
    ≡ evaluate_with base_name 14 "ls; cargo fmt" (policy ∷ [])
evaluate_with-fuel_example =
    evaluate_with-fuel base_name 50 "ls; cargo fmt" (policy ∷ []) (omega arith)

abbrev command : NormalizedSegment
command = record { argv = "cargo" ∷ "fmt" ∷ []; wrappers = [] }

select_matching_policy-some_example :
    IsIn policy (policy ∷ [])
    × (applies command policy ≡ true)
    × All (λ q. (applies command q ≡ false) ⊎ ComesFirst policy q) (policy ∷ [])
unfolding machinery
select_matching_policy-some_example = select_matching_policy-some (policy ∷ []) command policy refl

tokenize-quote_all_example :
    tokenize_shell_command "'a b' '\\' '&&' " ≡ some ("a b" ∷ "\\" ∷ "&&" ∷ [])
unfolding machinery
tokenize-quote_all_example =
    tokenize-quote_all ("a b" ∷ "\\" ∷ "&&" ∷ []) (refl, (refl, (refl, tt)))
