-- ===== src/Common/Distinct.antt =====
-- Lists without repetition, as a test.
use mathlib.Core.Bool.{Bool, true, false, not, ◌&&◌, ◌||◌}
use mathlib.Core.List.{List, [], ◌∷◌, ◌++◌}
use mathlib.Core.Path.{◌≡◌, refl}
use native.Mathlib.Omega.{arith}
use shared_context_engineeri.Common.Tests.{Eq}
use shared_context_engineeri.Common.Assoc.{contains}

module _ {A : Type 0} ⦃e : Eq A⦄ where
  abbrev pub is_distinct : List A → Bool
  is_distinct [] = true
  is_distinct (x ∷ xs) = not (contains x xs) && is_distinct xs

  pub contains-append :
      (a : A) (xs ys : List A) → contains a (xs ++ ys) ≡ (contains a xs || contains a ys)
  unfolding contains
  contains-append a [] ys = refl
  contains-append a (x ∷ xs) ys = ground (arith, contains-append a xs ys)

  pub contains-middle :
      (x : A) (xs ys : List A) → is_distinct (xs ++ x ∷ ys) ≡ true → contains x xs ≡ false
  unfolding contains
  contains-middle x [] ys h = refl
  contains-middle x (y ∷ xs) ys h =
      ground (arith, contains-middle x xs ys, contains-append y xs (x ∷ ys), h)

  pub distinct-snoc :
      (x : A) (xs : List A)
      → is_distinct xs ≡ true
      → contains x xs ≡ false
      → is_distinct (xs ++ x ∷ []) ≡ true
  unfolding contains
  distinct-snoc x [] h k = refl
  distinct-snoc x (y ∷ xs) h k =
      ground (arith, distinct-snoc x xs, contains-append y xs (x ∷ []), h, k)
