-- ===== src/BashPolicy/Evaluate.antt =====
-- cli/src/services/bash_policy.rs: `evaluate_bash_command_policy`. The fuel of the normalisation is
-- one more than the characters of the command. The active policies, which the source builds from
-- the configuration, are an argument; without a configuration there are none.
pub mod Decision
pub mod Tests
use Prim.Native.String.{count}
use shared_context_engineeri.Common.{
  ℕ, suc, String, Bool, true, false, Option, none, some, List, [], ◌∷◌, ◌++◌,
}
use shared_context_engineeri.BashPolicy.{
  PolicyMatch, NormalizedSegment, PolicyEvaluation, allowed, blocked, BashPolicyConfig,
  RuntimeBashPolicyPreset,
}
use shared_context_engineeri.BashPolicy.Shell.{parse_command_segments}
use shared_context_engineeri.BashPolicy.Normalize.{normalize_all, normalize_segment}
use shared_context_engineeri.BashPolicy.Select.{
  is_empty_list, select_matching_policy, build_active_policies_from_catalog,
}

abbrev pub or_first : Option (List String) → List String → Option (List String)
or_first none argv = some argv
or_first (some first) argv = some first

-- the loops over the normalised segments of all segments, in their order
unfoldable pub evaluate_normalized :
    List PolicyMatch → Option (List String) → List NormalizedSegment → PolicyEvaluation
unfolding select_matching_policy
evaluate_normalized active first [] = allowed first
evaluate_normalized active first (normalized ∷ rest) = elim (is_empty_list normalized.argv) [
  | true ↦ evaluate_normalized active first rest
  | false ↦ elim (select_matching_policy active normalized) [
    | some policy ↦ blocked normalized.argv policy
    | none ↦ evaluate_normalized active (or_first first normalized.argv) rest
  ]
]

-- `policy_config.map(build_active_policies).unwrap_or_default()`
abbrev pub active_policies :
    List RuntimeBashPolicyPreset → Option BashPolicyConfig → List PolicyMatch
active_policies catalog none = []
active_policies catalog (some policy_config) =
    build_active_policies_from_catalog policy_config catalog

module _ (file_name : String → Option String) where
  -- all normalised segments of a command
  unfoldable pub normalized_segments : ℕ → List (List String) → List NormalizedSegment
  unfolding normalize_all normalize_segment
  normalized_segments fuel segments =
      normalize_all (λ segment. normalize_segment file_name fuel segment []) segments

  unfoldable pub evaluate_with : ℕ → String → List PolicyMatch → PolicyEvaluation
  unfolding parse_command_segments normalized_segments evaluate_normalized
  evaluate_with fuel command active = elim (parse_command_segments command) [
    | none ↦ allowed none
    | some [] ↦ allowed none
    | some (segment ∷ segments) ↦
        evaluate_normalized active none (normalized_segments fuel (segment ∷ segments))
  ]

  unfoldable pub evaluate_bash_command_policy :
      List RuntimeBashPolicyPreset → String → Option BashPolicyConfig → PolicyEvaluation
  unfolding evaluate_with build_active_policies_from_catalog
  evaluate_bash_command_policy catalog command policy_config =
      evaluate_with (suc (count command)) command (active_policies catalog policy_config)
