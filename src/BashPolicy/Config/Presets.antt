-- ===== src/BashPolicy/Config/Presets.antt =====
-- Which lists of presets are accepted.
use mathlib.Core.List.{append-nil}
use shared_context_engineeri.Common.{
  ◌≡◌, ◌↔◌, refl, String, Bool, true, false, not, List, [], ◌∷◌, ◌++◌, ◌&&◌, ◌||◌, contains,
  append-snoc, string_eq, arith, inl, inr,
}
use shared_context_engineeri.Common.Result.{ok, Result-cases}
use shared_context_engineeri.Common.Distinct.{is_distinct, contains-middle, distinct-snoc}
use shared_context_engineeri.BashPolicy.Config.{
  BuiltinBashPolicyCatalog, builtin_bash_policy_preset_ids, presets_from, all_enabled, has_conflict,
  parse_bash_policy_presets,
}

abbrev pub all_known : List String → List String → Bool
all_known builtin [] = true
all_known builtin (item ∷ items) = contains item builtin && all_known builtin items

-- the group has a preset that is not enabled
abbrev pub misses_one : List String → List String → Bool
misses_one [] presets = false
misses_one (preset ∷ group) presets = not (contains preset presets) || misses_one group presets

abbrev pub all_miss_one : List (List String) → List String → Bool
all_miss_one [] presets = true
all_miss_one (group ∷ groups) presets = misses_one group presets && all_miss_one groups presets

-- Every preset is of the catalog, none is there twice, and of each group of presets that exclude
-- each other one is not there.
abbrev pub are_compatible : BuiltinBashPolicyCatalog → List String → Bool
are_compatible catalog presets =
    all_known (builtin_bash_policy_preset_ids catalog) presets
    && is_distinct presets
    && all_miss_one catalog.mutually_exclusive presets

all_enabled-eq :
    (group presets : List String) → all_enabled group presets ≡ not (misses_one group presets)
unfolding all_enabled
all_enabled-eq [] presets = refl
all_enabled-eq (preset ∷ group) presets = ground (arith, all_enabled-eq group presets)

has_conflict-eq :
    (groups : List (List String)) (presets : List String)
    → has_conflict groups presets ≡ not (all_miss_one groups presets)
unfolding has_conflict
has_conflict-eq [] presets = refl
has_conflict-eq (group ∷ groups) presets =
    ground (arith, has_conflict-eq groups presets, all_enabled-eq group presets)

presets_from-accepts :
    (builtin before items : List String)
    → all_known builtin items ≡ true
    → is_distinct (before ++ items) ≡ true
    → presets_from builtin before items ≡ ok (before ++ items)
unfolding presets_from
presets_from-accepts builtin before [] k d = ground (arith, append-nil before)
presets_from-accepts builtin before (item ∷ items) k d = ground (
  arith,
  presets_from-accepts builtin (before ++ item ∷ []) items,
  append-snoc before item items,
  contains-middle item before items d,
  k,
  d,
)

presets_from-accepted :
    (builtin before items presets : List String)
    → presets_from builtin before items ≡ ok presets
    → is_distinct before ≡ true
    → (presets ≡ before ++ items)
      × (all_known builtin items ≡ true)
      × (is_distinct (before ++ items) ≡ true)
unfolding presets_from
presets_from-accepted builtin before [] presets h d = ground (arith, append-nil before, h, d)
presets_from-accepted builtin before (item ∷ items) presets h d = ground (
  arith,
  presets_from-accepted builtin (before ++ item ∷ []) items presets,
  append-snoc before item items,
  distinct-snoc item before d,
  h,
)

-- A list of presets is accepted exactly if every preset is of the catalog, none is there twice, and
-- of each group of presets that exclude each other one is not there; the result is the list.
pub parse_bash_policy_presets-ok_iff :
    (catalog : BuiltinBashPolicyCatalog) (items presets : List String)
    → (parse_bash_policy_presets catalog items ≡ ok presets)
      ↔ ((presets ≡ items) × (are_compatible catalog items ≡ true))
unfolding parse_bash_policy_presets
parse_bash_policy_presets-ok_iff catalog items presets = (forth, back)
  where
    builtin : List String
    builtin = builtin_bash_policy_preset_ids catalog

    back :
        (presets ≡ items) × (are_compatible catalog items ≡ true)
        → parse_bash_policy_presets catalog items ≡ ok presets
    back (e, c) = ground (
      arith,
      presets_from-accepts builtin [] items,
      has_conflict-eq catalog.mutually_exclusive items,
      e,
      c,
    )

    forth :
        parse_bash_policy_presets catalog items ≡ ok presets
        → (presets ≡ items) × (are_compatible catalog items ≡ true)
    forth h = elim (Result-cases (presets_from builtin [] items)) [
      | inl (found, e) ↦ ground (
        arith,
        presets_from-accepted builtin [] items found e refl,
        has_conflict-eq catalog.mutually_exclusive items,
        e,
        h,
      )
      | inr (e, k) ↦ ground (arith, k, h)
    ]
