-- ===== src/BashPolicy/Select/Best.antt =====
-- Which policy is applied.
use shared_context_engineeri.Common.{
  ◌≡◌, refl, Bool, true, false, not, some, List, [], ◌∷◌, filter, All, ◌&&◌, ◌||◌, if◌then◌else◌,
  arith, ap, sym, ◌∙◌, is_some_and, Bool-cases, inl, inr, ◌⊎◌, ◌<◌, ◌≤◌, length, ltb, ℕ,
}
use mathlib.Core.Path.{subst}
use mathlib.Core.Option.{some-injective}
use shared_context_engineeri.Common.Order.{is_greater, then_with}
use Prim.Native.Nat.{compare}
use shared_context_engineeri.BashPolicy.{
  PolicySource, custom, preset, PolicyMatch, NormalizedSegment,
}
use shared_context_engineeri.BashPolicy.Select.{
  any, argv_starts_with, policy_is_satisfied_by_wrapper, compare_source, compare_policy_priority,
  least_from, min_by_priority, select_matching_policy,
}

-- The policy matches the command and no wrapper of the command satisfies it.
abbrev pub applies : NormalizedSegment → PolicyMatch → Bool
applies normalized policy =
    argv_starts_with normalized.argv policy.argv_prefix
    && not (policy_is_satisfied_by_wrapper policy normalized.wrappers)

-- The policy has at least the other's priority.
abbrev pub is_first : PolicyMatch → PolicyMatch → Bool
is_first p q = not (is_greater (compare_policy_priority p q))

abbrev pub IsIn : {A : Type 0} → A → List A → Type 0
IsIn a [] = ⊥
IsIn a (x ∷ xs) = (a ≡ x) ⊎ IsIn a xs

is_first_refl : (p : PolicyMatch) → is_first p p ≡ true
unfolding compare_policy_priority
is_first_refl p = ground arith

is_first_trans :
    (p q r : PolicyMatch) → is_first p q ≡ true → is_first q r ≡ true → is_first p r ≡ true
unfolding compare_policy_priority
is_first_trans p q r h k = ground arith

is_first_total : (p q : PolicyMatch) → is_first p q ≡ false → is_first q p ≡ true
unfolding compare_policy_priority
is_first_total p q h = ground arith

abbrev Least : PolicyMatch → PolicyMatch → List PolicyMatch → Type 0
Least p best policies =
    IsIn p (best ∷ policies) × (is_first p best ≡ true) × All (λ q. is_first p q ≡ true) policies

least_from-Least :
    (best : PolicyMatch) (policies : List PolicyMatch)
    → Least (least_from best policies) best policies
unfolding least_from
least_from-Least best [] = (inl refl, is_first_refl best, tt)
least_from-Least best (policy ∷ policies) =
    elim (Bool-cases (is_greater (compare_policy_priority best policy))) [
      | inl e ↦
          let (member, first, others) = least_from-Least policy policies in
          let same = ap (λ b. least_from (if b then policy else best) policies) e in
          let p = least_from policy policies in
          subst (λ p. Least p best (policy ∷ policies)) (sym same)
            (
              inr member,
              is_first_trans p policy best first (is_first_total best policy (ground arith)),
              (first, others),
            )
      | inr e ↦
          let (member, first, others) = least_from-Least best policies in
          let same = ap (λ b. least_from (if b then policy else best) policies) e in
          let p = least_from best policies in
          let moved : IsIn p (best ∷ policy ∷ policies) = elim member [
            | inl kept ↦ inl kept
            | inr later ↦ inr (inr later)
          ] in
          subst (λ p. Least p best (policy ∷ policies)) (sym same)
            (moved, first, (is_first_trans p best policy first (ground arith), others))
    ]

both : NormalizedSegment → List PolicyMatch → List PolicyMatch
both normalized active =
    filter (λ policy. not (policy_is_satisfied_by_wrapper policy normalized.wrappers))
      (filter (λ policy. argv_starts_with normalized.argv policy.argv_prefix) active)

both-cons :
    (n : NormalizedSegment) (policy : PolicyMatch) (active : List PolicyMatch)
    → both n (policy ∷ active)
      ≡ (if applies n policy then policy ∷ both n active else both n active)
unfolding both filter
both-cons n policy active = ground arith

both-IsIn :
    (n : NormalizedSegment) (p : PolicyMatch) (active : List PolicyMatch)
    → IsIn p (both n active)
    → IsIn p active × (applies n p ≡ true)
unfolding filter both
both-IsIn n p [] h = absurd h
both-IsIn n p (policy ∷ active) h = elim (Bool-cases (applies n policy)) [
  | inl e ↦
      let kept : both n (policy ∷ active) ≡ policy ∷ both n active =
        both-cons n policy active
        ∙ ap (λ b. if b then policy ∷ both n active else both n active) e in
      let here : IsIn p (policy ∷ both n active) = subst (IsIn p) kept h in
      elim here [
        | inl same ↦ (inl same, subst (λ q. applies n q ≡ true) (sym same) e)
        | inr later ↦ let (member, ok) = both-IsIn n p active later in (inr member, ok)
      ]
  | inr e ↦
      let gone : both n (policy ∷ active) ≡ both n active =
        both-cons n policy active
        ∙ ap (λ b. if b then policy ∷ both n active else both n active) e in
      let (member, ok) = both-IsIn n p active (subst (IsIn p) gone h) in (inr member, ok)
]

both-All :
    (n : NormalizedSegment) (g : PolicyMatch → Bool) (active : List PolicyMatch)
    → All (λ q. g q ≡ true) (both n active)
    → All (λ q. (not (applies n q) || g q) ≡ true) active
unfolding filter both
both-All n g [] h = tt
both-All n g (policy ∷ active) h = elim (Bool-cases (applies n policy)) [
  | inl e ↦
      let kept : both n (policy ∷ active) ≡ policy ∷ both n active =
        both-cons n policy active
        ∙ ap (λ b. if b then policy ∷ both n active else both n active) e in
      let here : All (λ q. g q ≡ true) (policy ∷ both n active) =
        subst (All (λ q. g q ≡ true)) kept h in
      (ground (arith, here.0), both-All n g active here.1)
  | inr e ↦
      let gone : both n (policy ∷ active) ≡ both n active =
        both-cons n policy active
        ∙ ap (λ b. if b then policy ∷ both n active else both n active) e in
      (ground arith, both-All n g active (subst (All (λ q. g q ≡ true)) gone h))
]

-- `p` comes before `q` or is as good: it has the longer prefix, or one as long and is a custom policy
-- where the other is a preset, or has the same source and is not later in its list.
abbrev pub ComesFirst : PolicyMatch → PolicyMatch → Type 0
ComesFirst p q =
    (length q.argv_prefix < length p.argv_prefix)
    ⊎ (length p.argv_prefix ≡ length q.argv_prefix)
      × (((p.source ≡ custom) × (q.source ≡ preset))
          ⊎ ((p.source ≡ q.source) × (p.order ≤ q.order)))

-- the comparison past the lengths
ordered : PolicySource → PolicySource → ℕ → ℕ → Bool
ordered s t m n = not (is_greater (then_with (compare_source s t) (compare m n)))

ordered-source :
    (s t : PolicySource) (m n : ℕ)
    → ordered s t m n ≡ true
    → ((s ≡ custom) × (t ≡ preset)) ⊎ ((s ≡ t) × (m ≤ n))
unfolding ordered
ordered-source custom preset m n h = inl (refl, refl)
ordered-source custom custom m n h = inr (refl, ground arith)
ordered-source preset preset m n h = inr (refl, ground arith)
ordered-source preset custom m n h = absurd (ground arith)

is_first-ComesFirst : (p q : PolicyMatch) → is_first p q ≡ true → ComesFirst p q
unfolding compare_policy_priority ordered
is_first-ComesFirst p q h = elim (Bool-cases (ltb (length q.argv_prefix) (length p.argv_prefix))) [
  | inl longer ↦ inl (ground arith)
  | inr other ↦ inr (ground arith, ordered-source p.source q.source p.order q.order (ground arith))
]

All-ComesFirst :
    (n : NormalizedSegment) (p : PolicyMatch) (active : List PolicyMatch)
    → All (λ q. (not (applies n q) || is_first p q) ≡ true) active
    → All (λ q. (applies n q ≡ false) ⊎ ComesFirst p q) active
All-ComesFirst n p [] h = tt
All-ComesFirst n p (q ∷ active) h = (
  elim (Bool-cases (applies n q)) [
    | inl a ↦ inr (is_first-ComesFirst p q (ground (arith, a, h.0)))
    | inr out ↦ inl out
  ],
  All-ComesFirst n p active h.1,
)

-- The policy that is selected for a command is an active one that applies to it (its prefix
-- matches, no wrapper satisfies it), and every active policy that applies has a shorter prefix, or
-- one as long and is a preset where the selected one is custom, or has the same source and is not
-- earlier in its order.
pub select_matching_policy-some :
    (active : List PolicyMatch) (normalized : NormalizedSegment) (p : PolicyMatch)
    → select_matching_policy active normalized ≡ some p
    → IsIn p active
      × (applies normalized p ≡ true)
      × All (λ q. (applies normalized q ≡ false) ⊎ ComesFirst p q) active
unfolding select_matching_policy both min_by_priority
select_matching_policy-some active normalized p h = selected (both normalized active) refl h
  where
    selected :
        (found : List PolicyMatch)
        → both normalized active ≡ found
        → min_by_priority found ≡ some p
        → IsIn p active
          × (applies normalized p ≡ true)
          × All (λ q. (applies normalized q ≡ false) ⊎ ComesFirst p q) active
    selected [] e k = cc
    selected (best ∷ policies) e k =
        let same : least_from best policies ≡ p = some-injective _ _ k in
        let (member, first, others) : Least p best policies =
          subst (λ x. Least x best policies) same (least_from-Least best policies) in
        let here : IsIn p (both normalized active) = subst (IsIn p) (sym e) member in
        let (found, ok) = both-IsIn normalized p active here in
        (
          found,
          ok,
          All-ComesFirst normalized p active (
              both-All normalized (is_first p) active
                (subst (All (λ q. is_first p q ≡ true)) (sym e) (first, others))),
        )

-- A command is matched by a policy exactly if some active policy applies to it.
pub select_matching_policy-any :
    (active : List PolicyMatch) (normalized : NormalizedSegment)
    → is_some_and (λ _. true) (select_matching_policy active normalized)
      ≡ any (applies normalized) active
unfolding select_matching_policy filter min_by_priority
select_matching_policy-any [] normalized = refl
select_matching_policy-any (policy ∷ active) normalized =
    ground (arith, select_matching_policy-any active normalized)
