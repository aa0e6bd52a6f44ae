-- ===== src/BashPolicy/Normalize/Fuel.antt =====
-- How much fuel the normalisation needs.
use Prim.Native.String as Text
use Prim.Native.String.{count}
use text.Mathlib.TextLemmas.{length-cons}
use shared_context_engineeri.Common.{
  ℕ, zero, suc, ◌+◌, ◌≤◌, ◌<◌, ◌≡◌, refl, ap, String, true, false, Option, none, some, List, [],
  ◌∷◌, ◌++◌, ◌==◌, ◌&&◌, ◌||◌, nat_eq, string_eq, String-discrete, All, arith, Option-cases,
  Bool-cases, inl, inr,
}
use mathlib.Core.Path.{subst}
use shared_context_engineeri.BashPolicy.{NormalizedSegment}
use shared_context_engineeri.Common.Text.{is_empty}
use shared_context_engineeri.BashPolicy.Shell.{parse_command_segments}
use shared_context_engineeri.BashPolicy.Shell.Size.{total, parse_command_segments-size}
use shared_context_engineeri.BashPolicy.Normalize.{
  is_wrapper, is_env_assignment, is_shell, drop_wrappers, nix_command_argv, shell_command_payload,
  unwrap_nested_command_segments, unwrap_or_empty, or_itself, from_nested, normalize_all,
  normalize_stripped, normalize_segment, first, starts_with_dash, contains_c,
}

drop_wrappers-total : (segment : List String) → total (drop_wrappers segment) ≤ total segment
unfolding drop_wrappers
drop_wrappers-total [] = omega arith
drop_wrappers-total (token ∷ tokens) =
    elim (Bool-cases (is_env_assignment token || is_wrapper token)) [
      | inl e ↦ rw e (omega (arith, drop_wrappers-total tokens))
      | inr e ↦ rw e (omega arith)
    ]

abbrev Below : ℕ → Option (List String) → Type 0
Below n none = Unit
Below n (some argv) = total argv < n

abbrev TextBelow : ℕ → Option String → Type 0
TextBelow n none = Unit
TextBelow n (some s) = count s < n

abbrev AllBelow : ℕ → Option (List (List String)) → Type 0
AllBelow n none = Unit
AllBelow n (some segments) = All (λ s. total s < n) segments

Below-weaken : (m n : ℕ) (o : Option (List String)) → m ≤ n → Below m o → Below n o
Below-weaken m n none h b = tt
Below-weaken m n (some argv) h b = omega (arith, h, b)

TextBelow-weaken : (m n : ℕ) (o : Option String) → m ≤ n → TextBelow m o → TextBelow n o
TextBelow-weaken m n none h b = tt
TextBelow-weaken m n (some s) h b = omega (arith, h, b)

pub All-below :
    (m n : ℕ) (segments : List (List String))
    → m < n
    → All (λ s. total s ≤ m) segments
    → All (λ s. total s < n) segments
All-below m n [] h b = tt
All-below m n (s ∷ segments) h b = (omega (arith, h, b.0), All-below m n segments h b.1)

nonempty-count : (token : String) → is_empty token ≡ false → 0 < count token
nonempty-count Text.[] h = cc
nonempty-count (Text.◌∷◌ c s) h = omega (arith, length-cons c s)

flag-count : (token : String) → (token == "-c" || token == "--command") ≡ true → 0 < count token
unfolding String-discrete
flag-count Text.[] h = cc
flag-count (Text.◌∷◌ c s) h = omega (arith, length-cons c s)

nix_command_argv-Below :
    (arguments : List String) → Below (total arguments) (nix_command_argv arguments)
unfolding nix_command_argv
nix_command_argv-Below [] = tt
nix_command_argv-Below (token ∷ []) = ground arith
nix_command_argv-Below (token ∷ x ∷ xs) =
    elim (Bool-cases (token == "-c" || token == "--command")) [
      | inl e ↦ rw e (omega (arith, flag-count token e))
      | inr e ↦ rw e (
          Below-weaken (total (x ∷ xs)) (total (token ∷ x ∷ xs)) (nix_command_argv (x ∷ xs))
            (omega arith) (nix_command_argv-Below (x ∷ xs)))
    ]

first-TextBelow :
    (n : ℕ) (tokens : List String) → 0 < n → TextBelow (n + total tokens) (first tokens)
first-TextBelow n [] h = tt
first-TextBelow n (token ∷ tokens) h = omega (arith, h)

shell_command_payload-TextBelow :
    (arguments : List String) → TextBelow (total arguments) (shell_command_payload arguments)
unfolding shell_command_payload
shell_command_payload-TextBelow [] = tt
shell_command_payload-TextBelow (token ∷ tokens) =
    let later =
      TextBelow-weaken (total tokens) (total (token ∷ tokens)) (shell_command_payload tokens)
        (omega arith) (shell_command_payload-TextBelow tokens) in
    elim (Bool-cases (is_empty token || token == "--")) [
      | inl e ↦ rw e later
      | inr e ↦ elim (Bool-cases (token == "-c" || (starts_with_dash token && contains_c token))) [
        | inl f ↦
            rw (e, f) (first-TextBelow (count token) tokens (nonempty-count token (ground arith)))
        | inr f ↦ rw (e, f) later
      ]
    ]

unwrap_nested-AllBelow :
    (executable : String) (arguments : List String)
    → AllBelow (total arguments) (unwrap_nested_command_segments executable arguments)
unfolding unwrap_nested_command_segments
unwrap_nested-AllBelow executable arguments = elim (Bool-cases (executable == "nix")) [
  | inl e ↦ elim (Option-cases (nix_command_argv arguments)) [
    | inl f ↦ rw (e, f) tt
    | inr (argv, f) ↦
        let below : Below (total arguments) (some argv) =
          subst (Below (total arguments)) f (nix_command_argv-Below arguments) in
        rw (e, f) (below, tt)
  ]
  | inr e ↦ elim (Bool-cases (is_shell executable)) [
    | inl g ↦ elim (Option-cases (shell_command_payload arguments)) [
      | inl f ↦ rw (e, g, f) tt
      | inr (payload, f) ↦ elim (Option-cases (parse_command_segments payload)) [
        | inl k ↦ rw (e, g, f, k) tt
        | inr (segments, k) ↦
            let below : TextBelow (total arguments) (some payload) =
              subst (TextBelow (total arguments)) f (shell_command_payload-TextBelow arguments) in
            rw (e, g, f, k)
              (All-below (count payload) (total arguments) segments below
                (parse_command_segments-size payload segments k))
      ]
    ]
    | inr g ↦ rw (e, g) tt
  ]
]

pub normalize_all-ext :
    (n : ℕ) (segments : List (List String)) (g h : List String → List NormalizedSegment)
    → ((s : List String) → total s < n → g s ≡ h s)
    → All (λ s. total s < n) segments
    → normalize_all g segments ≡ normalize_all h segments
unfolding normalize_all
normalize_all-ext n [] g h same b = refl
normalize_all-ext n (s ∷ segments) g h same b =
    cc (same s b.0, normalize_all-ext n segments g h same b.1)

from_nested-ext :
    (n : ℕ) (nested : Option (List (List String))) (itself : NormalizedSegment)
    (g h : List String → List NormalizedSegment)
    → ((s : List String) → total s < n → g s ≡ h s)
    → AllBelow n nested
    → from_nested g nested itself ≡ from_nested h nested itself
from_nested-ext n none itself g h same b = refl
from_nested-ext n (some nested) itself g h same b =
    ap (λ found. or_itself found itself) (normalize_all-ext n nested g h same b)

module _ (file_name : String → Option String) where
  normalize_stripped-ext :
      (n : ℕ) (stripped : List String) (wrappers : List (List String))
      (g h : List String → List (List String) → List NormalizedSegment)
      → ((s : List String) (w : List (List String)) → total s < n → g s w ≡ h s w)
      → total stripped ≤ n
      → normalize_stripped file_name g stripped wrappers
        ≡ normalize_stripped file_name h stripped wrappers
  unfolding normalize_stripped
  normalize_stripped-ext n [] wrappers g h same b = refl
  normalize_stripped-ext n (executable ∷ arguments) wrappers g h same b =
      let name = unwrap_or_empty (file_name executable) in
      let inner = wrappers ++ (name ∷ arguments) ∷ [] in
      from_nested-ext (total arguments) (unwrap_nested_command_segments name arguments) _
        (λ s. g s inner) (λ s. h s inner) (λ s q. same s inner (omega (arith, q, b)))
        (unwrap_nested-AllBelow name arguments)

  -- With more fuel than the segment has characters, the result does not depend on the fuel: the
  -- recursion on nested commands has ended.
  pub normalize_segment-fuel :
      (f g : ℕ) (segment : List String) (wrappers : List (List String))
      → total segment < f
      → total segment < g
      → normalize_segment file_name f segment wrappers
        ≡ normalize_segment file_name g segment wrappers
  unfolding normalize_segment
  normalize_segment-fuel zero g segment wrappers p q = absurd (omega arith)
  normalize_segment-fuel (suc f) zero segment wrappers p q = absurd (omega arith)
  normalize_segment-fuel (suc f) (suc g) segment wrappers p q =
      normalize_stripped-ext (total segment) (drop_wrappers segment) wrappers
        (normalize_segment file_name f) (normalize_segment file_name g)
        (λ s w r. normalize_segment-fuel f g s w (omega (arith, p, r)) (omega (arith, q, r)))
        (drop_wrappers-total segment)
