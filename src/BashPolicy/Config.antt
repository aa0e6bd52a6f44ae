-- ===== src/BashPolicy/Config.antt =====
-- cli/src/services/config/policy.rs: the validation of the configured policies. The generated
-- catalog of presets is a parameter, and so is what a text of an error says: an error is one of
-- the reasons.
pub mod Presets
pub mod Entry
pub mod Custom
pub mod Tests
use shared_context_engineeri.Common.{
  ℕ, ◌+◌, String, Bool, true, false, not, Option, none, some, List, [], ◌∷◌, ◌++◌, map, ◌==◌, ◌&&◌,
  ◌||◌, if◌then◌else◌, filter, contains, Eq, string_eq, String-discrete,
}
use shared_context_engineeri.Common.Text.{is_empty}
use shared_context_engineeri.Common.Result.{Result, ok, err, ◌>>=◌, ok_or}
use shared_context_engineeri.BashPolicy.{
  CustomBashPolicyEntry, BashPolicyConfig, RuntimeBashPolicyPreset,
}

pub record BuiltinBashPolicyMatcher : Type 0 where
  pub argv_prefixes : List (List String)

pub record BuiltinBashPolicyPreset : Type 0 where
  pub id : String
  pub matcher : BuiltinBashPolicyMatcher
  pub message : String

pub record BuiltinBashPolicyRedundancyWarning : Type 0 where
  pub if_enabled : List String
  pub warning : String

pub record BuiltinBashPolicyCatalog : Type 0 where
  pub presets : List BuiltinBashPolicyPreset
  pub mutually_exclusive : List (List String)
  pub redundancy_warnings : List BuiltinBashPolicyRedundancyWarning

pub record ParsedCustomBashPolicyMatchDocument : Type 0 where
  pub argv_prefix : Option (List String)

pub record ParsedCustomBashPolicyEntryDocument : Type 0 where
  pub id : Option String
  pub matcher : Option ParsedCustomBashPolicyMatchDocument
  pub satisfied_by : Option (List (List String))
  pub message : Option String

-- why a configuration is refused
pub data ConfigError : Type 0 where
  unknown_preset duplicate_preset exclusive_presets : ConfigError
  missing_id builtin_id missing_message empty_message missing_match : ConfigError
  missing_argv_prefix empty_argv_prefix empty_token empty_satisfied_by : ConfigError
  duplicate_id duplicate_argv_prefix : ConfigError

abbrev pub Checked : Type 0 → Type 0
Checked A = Result ConfigError A

unfoldable pub Words-discrete : Discrete (List String)
unfolding String-discrete
Words-discrete = hlevel String-discrete

instance abbrev pub words_eq : Eq (List String)
words_eq = record { dec = Words-discrete }

-- `runtime_bash_policy_presets`, from an index on
unfoldable pub runtime_from : ℕ → List BuiltinBashPolicyPreset → List RuntimeBashPolicyPreset
runtime_from order [] = []
runtime_from order (preset ∷ presets) =
    record {
      id = preset.id;
      argv_prefixes = preset.matcher.argv_prefixes;
      message = preset.message;
      order = order;
    }
    ∷ runtime_from (order + 1) presets

unfoldable pub runtime_bash_policy_presets : BuiltinBashPolicyCatalog → List RuntimeBashPolicyPreset
unfolding runtime_from
runtime_bash_policy_presets catalog = runtime_from 0 catalog.presets

abbrev pub builtin_bash_policy_preset_ids : BuiltinBashPolicyCatalog → List String
builtin_bash_policy_preset_ids catalog = map (λ preset. preset.id) catalog.presets

abbrev pub is_builtin_bash_policy_preset_id : BuiltinBashPolicyCatalog → String → Bool
is_builtin_bash_policy_preset_id catalog id = contains id (builtin_bash_policy_preset_ids catalog)

-- whether every preset of a group is enabled
unfoldable pub all_enabled : List String → List String → Bool
all_enabled [] presets = true
all_enabled (preset ∷ group) presets = contains preset presets && all_enabled group presets

unfoldable pub build_validation_warnings :
    BuiltinBashPolicyCatalog → Option BashPolicyConfig → List String
unfolding filter all_enabled
build_validation_warnings catalog none = []
build_validation_warnings catalog (some config) =
    map (λ warning. warning.warning)
      (filter (λ warning. all_enabled warning.if_enabled config.presets)
        catalog.redundancy_warnings)

-- the loop over the items, after `presets`
unfoldable pub presets_from : List String → List String → List String → Checked (List String)
unfolding contains
presets_from builtin presets [] = ok presets
presets_from builtin presets (item ∷ items) =
    let rest = presets_from builtin (presets ++ item ∷ []) items in
    if not (contains item builtin)
    then err unknown_preset
    else if contains item presets
    then err duplicate_preset
    else rest

unfoldable pub has_conflict : List (List String) → List String → Bool
unfolding all_enabled
has_conflict [] presets = false
has_conflict (group ∷ groups) presets = all_enabled group presets || has_conflict groups presets

unfoldable pub parse_bash_policy_presets :
    BuiltinBashPolicyCatalog → List String → Checked (List String)
unfolding presets_from has_conflict
parse_bash_policy_presets catalog items =
    presets_from (builtin_bash_policy_preset_ids catalog) [] items >>= λ presets.
    if has_conflict catalog.mutually_exclusive presets then err exclusive_presets else ok presets

unfoldable pub parse_custom_bash_policy_argv_prefix : List String → Checked (List String)
parse_custom_bash_policy_argv_prefix [] = ok []
parse_custom_bash_policy_argv_prefix (token ∷ tokens) =
    let rest = parse_custom_bash_policy_argv_prefix tokens in
    if is_empty token then err empty_token else rest >>= λ more. ok (token ∷ more)

unfoldable pub satisfied_by_from : List (List String) → Checked (List (List String))
unfolding parse_custom_bash_policy_argv_prefix
satisfied_by_from [] = ok []
satisfied_by_from ([] ∷ wrappers) = err empty_satisfied_by
satisfied_by_from ((token ∷ tokens) ∷ wrappers) =
    let rest = satisfied_by_from wrappers in
    parse_custom_bash_policy_argv_prefix (token ∷ tokens) >>= λ wrapper_prefix.
    rest >>= λ more. ok (wrapper_prefix ∷ more)

abbrev pub parse_custom_bash_policy_satisfied_by :
    Option (List (List String)) → Checked (List (List String))
parse_custom_bash_policy_satisfied_by none = ok []
parse_custom_bash_policy_satisfied_by (some wrappers) = satisfied_by_from wrappers

abbrev pub non_empty_prefix : List String → Checked (List String)
non_empty_prefix [] = err empty_argv_prefix
non_empty_prefix (token ∷ tokens) = parse_custom_bash_policy_argv_prefix (token ∷ tokens)

abbrev pub parse_custom_bash_policy_match :
    Option ParsedCustomBashPolicyMatchDocument → Checked (List String)
parse_custom_bash_policy_match matcher = ok_or matcher missing_match >>= λ found.
    ok_or found.argv_prefix missing_argv_prefix >>= non_empty_prefix

unfoldable pub parse_custom_bash_policy_entry :
    BuiltinBashPolicyCatalog → ParsedCustomBashPolicyEntryDocument → Checked CustomBashPolicyEntry
unfolding contains parse_custom_bash_policy_argv_prefix satisfied_by_from
parse_custom_bash_policy_entry catalog item = ok_or item.id missing_id >>= λ id.
    if is_builtin_bash_policy_preset_id catalog id
    then err builtin_id
    else ok_or item.message missing_message >>= λ message.
        if is_empty message
        then err empty_message
        else parse_custom_bash_policy_match item.matcher >>= λ argv_prefix.
            parse_custom_bash_policy_satisfied_by item.satisfied_by >>= λ satisfied_by. ok (record {
              id = id;
              argv_prefix = argv_prefix;
              satisfied_by = satisfied_by;
              message = message;
            })

-- the loop over the items, after `policies`; their prefixes are those of `argv_prefixes`
unfoldable pub custom_from :
    BuiltinBashPolicyCatalog
    → List CustomBashPolicyEntry
    → List (List String)
    → List ParsedCustomBashPolicyEntryDocument
    → Checked (List CustomBashPolicyEntry)
unfolding contains parse_custom_bash_policy_entry
custom_from catalog policies argv_prefixes [] = ok policies
custom_from catalog policies argv_prefixes (item ∷ items) =
    let continue : CustomBashPolicyEntry → Checked (List CustomBashPolicyEntry) = λ policy.
      custom_from catalog (policies ++ policy ∷ []) (argv_prefixes ++ policy.argv_prefix ∷ [])
        items in
    parse_custom_bash_policy_entry catalog item >>= λ policy.
    if contains policy.id (map (λ existing. existing.id) policies)
    then err duplicate_id
    else if contains policy.argv_prefix argv_prefixes
    then err duplicate_argv_prefix
    else continue policy

unfoldable pub parse_custom_bash_policies :
    BuiltinBashPolicyCatalog
    → List ParsedCustomBashPolicyEntryDocument
    → Checked (List CustomBashPolicyEntry)
unfolding custom_from
parse_custom_bash_policies catalog items = custom_from catalog [] [] items
