-- ===== src/BashPolicy/Evaluate/Decision.antt =====
-- When a command is blocked.
use Prim.Native.String.{count}
use shared_context_engineeri.Common.{
  ℕ, suc, ◌<◌, ◌≤◌, ◌≡◌, refl, String, Bool, true, false, not, Option, none, some, List, [], ◌∷◌,
  All, ◌&&◌, arith, Option-cases, inl, inr,
}
use shared_context_engineeri.BashPolicy.{
  PolicyMatch, NormalizedSegment, PolicyEvaluation, allowed, blocked, BashPolicyConfig,
  RuntimeBashPolicyPreset,
}
use shared_context_engineeri.BashPolicy.Shell.{parse_command_segments}
use shared_context_engineeri.BashPolicy.Shell.Size.{total, parse_command_segments-size}
use shared_context_engineeri.BashPolicy.Normalize.{normalize_all, normalize_segment}
use shared_context_engineeri.BashPolicy.Normalize.Fuel.{
  All-below, normalize_all-ext, normalize_segment-fuel,
}
use shared_context_engineeri.BashPolicy.Select.{any, is_empty_list}
use shared_context_engineeri.BashPolicy.Select.Best.{applies, select_matching_policy-any}
use shared_context_engineeri.BashPolicy.Evaluate.{
  or_first, evaluate_normalized, normalized_segments, evaluate_with, active_policies,
  evaluate_bash_command_policy,
}

abbrev pub is_blocked : PolicyEvaluation → Bool
is_blocked (allowed _) = false
is_blocked (blocked _ _) = true

-- The command is not empty and some active policy applies to it.
abbrev pub is_forbidden : List PolicyMatch → NormalizedSegment → Bool
is_forbidden active normalized =
    not (is_empty_list normalized.argv) && any (applies normalized) active

evaluate_normalized-blocked :
    (active : List PolicyMatch) (first : Option (List String)) (rest : List NormalizedSegment)
    → is_blocked (evaluate_normalized active first rest) ≡ any (is_forbidden active) rest
unfolding evaluate_normalized
evaluate_normalized-blocked active first [] = refl
evaluate_normalized-blocked active first (normalized ∷ rest) = ground (
  arith,
  select_matching_policy-any active normalized,
  evaluate_normalized-blocked active first rest,
  evaluate_normalized-blocked active (or_first first normalized.argv) rest,
)

-- the segments of a command, none where it cannot be read
abbrev pub or_none : Option (List (List String)) → List (List String)
or_none none = []
or_none (some segments) = segments

normalized_segments-fuel :
    (file_name : String → Option String) (n fuel : ℕ) (segments : List (List String))
    → n < fuel
    → All (λ s. total s ≤ n) segments
    → normalized_segments file_name fuel segments ≡ normalized_segments file_name (suc n) segments
unfolding normalized_segments
normalized_segments-fuel file_name n fuel segments h b =
    normalize_all-ext (suc n) segments (λ s. normalize_segment file_name fuel s [])
      (λ s. normalize_segment file_name (suc n) s [])
      (λ s q. normalize_segment-fuel file_name fuel (suc n) s [] (omega (arith, q, h)) q)
      (All-below n (suc n) segments (omega arith) b)

-- With any fuel above the number of the command's characters the evaluation gives the same result:
-- the fuel that is used is enough for the recursion on nested commands to end by itself.
pub evaluate_with-fuel :
    (file_name : String → Option String) (fuel : ℕ) (command : String) (active : List PolicyMatch)
    → count command < fuel
    → evaluate_with file_name fuel command active
      ≡ evaluate_with file_name (suc (count command)) command active
unfolding evaluate_with
evaluate_with-fuel file_name fuel command active h =
    elim (Option-cases (parse_command_segments command)) [
      | inl e ↦ ground arith
      | inr ([], e) ↦ ground arith
      | inr (segment ∷ segments, e) ↦
          let same =
            normalized_segments-fuel file_name (count command) fuel (segment ∷ segments) h
              (parse_command_segments-size command (segment ∷ segments) e) in
          ground (arith, same)
    ]

normalized_segments-nil :
    (file_name : String → Option String) (fuel : ℕ) → normalized_segments file_name fuel [] ≡ []
unfolding normalized_segments normalize_all
normalized_segments-nil file_name fuel = refl

evaluate_with-blocked :
    (file_name : String → Option String) (fuel : ℕ) (command : String) (active : List PolicyMatch)
    → is_blocked (evaluate_with file_name fuel command active)
      ≡ any
          (is_forbidden active)
          (normalized_segments file_name fuel (or_none (parse_command_segments command)))
unfolding evaluate_with
evaluate_with-blocked file_name fuel command active =
    elim (Option-cases (parse_command_segments command)) [
      | inl e ↦ ground (arith, normalized_segments-nil file_name fuel)
      | inr ([], e) ↦ ground (arith, normalized_segments-nil file_name fuel)
      | inr (segment ∷ segments, e) ↦ ground (
        arith,
        evaluate_normalized-blocked active none
            (normalized_segments file_name fuel (segment ∷ segments)),
      )
    ]

-- A command is blocked exactly if one of its normalised commands (those of its segments and of the
-- commands nested in them) is not empty and an active policy applies to it. A command that cannot
-- be read, and any command without a configuration, is allowed.
pub evaluate_bash_command_policy-blocked :
    (file_name : String → Option String) (catalog : List RuntimeBashPolicyPreset) (command : String)
    (policy_config : Option BashPolicyConfig)
    → is_blocked (evaluate_bash_command_policy file_name catalog command policy_config)
      ≡ any (is_forbidden (active_policies catalog policy_config)) (
          normalized_segments file_name
            (suc (count command))
            (or_none (parse_command_segments command)))
unfolding evaluate_bash_command_policy
evaluate_bash_command_policy-blocked file_name catalog command policy_config =
    evaluate_with-blocked file_name (suc (count command)) command
      (active_policies catalog policy_config)
