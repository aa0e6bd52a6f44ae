-- ===== src/Common/Assoc.antt =====
-- Association lists with one entry for a key, for `BTreeMap` and `HashMap`, and lists without
-- repetition, for `BTreeSet` and `HashSet`.
use mathlib.Core.Bool.{Bool, true, false, not, ◌||◌, ◌&&◌}
use mathlib.Core.List.{List, [], ◌∷◌}
use mathlib.Core.Option
use mathlib.Core.Option.{Option, none, some}
use mathlib.Core.Path.{◌≡◌, refl}
use native.Mathlib.Omega.{arith}
use shared_context_engineeri.Common.Tests.{Eq, ◌==◌, if◌then◌else◌, is_some_and}

module _ {K V : Type 0} ⦃e : Eq K⦄ where
  unfoldable pub lookup : K → List (K × V) → Option V
  lookup k [] = none
  lookup k ((i, w) ∷ rest) = if i == k then some w else lookup k rest

  unfoldable pub insert : K → V → List (K × V) → List (K × V)
  insert k v [] = (k, v) ∷ []
  insert k v ((i, w) ∷ rest) = if i == k then (k, v) ∷ rest else (i, w) ∷ insert k v rest

  -- a write through `get_mut`
  unfoldable pub modify : K → (V → V) → List (K × V) → List (K × V)
  modify k f [] = []
  modify k f ((j, w) ∷ m) = if j == k then (j, f w) ∷ m else (j, w) ∷ modify k f m

  unfoldable pub remove : K → List (K × V) → List (K × V)
  remove k [] = []
  remove k ((j, w) ∷ m) = let rest = remove k m in if j == k then rest else (j, w) ∷ rest

  unfoldable pub contains_key : K → List (K × V) → Bool
  unfolding lookup
  contains_key k m = is_some_and (λ _. true) (lookup k m)

  -- the keys of the entries whose value passes a test
  unfoldable pub keys_where : (V → Bool) → List (K × V) → List K
  keys_where p [] = []
  keys_where p ((j, w) ∷ m) = let rest = keys_where p m in if p w then j ∷ rest else rest

  -- one entry for each key
  abbrev pub IsUnique : List (K × V) → Type 0
  IsUnique [] = Unit
  IsUnique ((j, w) ∷ m) = (lookup j m ≡ none) × IsUnique m

  pub lookup-insert :
      (key other : K) (new : V) (entries : List (K × V))
      → lookup other (insert key new entries)
        ≡ (if key == other then some new else lookup other entries)
  unfolding lookup insert
  lookup-insert key other new [] = refl
  lookup-insert key other new (entry ∷ entries) =
      ground (arith, lookup-insert key other new entries)

  pub lookup-modify :
      (k j : K) (f : V → V) (m : List (K × V))
      → lookup j (modify k f m) ≡ (if k == j then Option.map f (lookup j m) else lookup j m)
  unfolding lookup modify
  lookup-modify k j f [] = ground arith
  lookup-modify k j f ((i, w) ∷ m) = ground (arith, lookup-modify k j f m)

  pub lookup-remove :
      (k j : K) (m : List (K × V)) → lookup j (remove k m) ≡ (if k == j then none else lookup j m)
  unfolding lookup remove
  lookup-remove k j [] = ground arith
  lookup-remove k j ((i, w) ∷ m) = ground (arith, lookup-remove k j m)

  pub insert-IsUnique : (k : K) (v : V) (m : List (K × V)) → IsUnique m → IsUnique (insert k v m)
  unfolding lookup insert
  insert-IsUnique k v [] u = (refl, tt)
  insert-IsUnique k v ((i, w) ∷ m) u =
      ground (arith, insert-IsUnique k v m u.1, lookup-insert k i v m)

  pub modify-IsUnique :
      (k : K) (f : V → V) (m : List (K × V)) → IsUnique m → IsUnique (modify k f m)
  unfolding lookup modify
  modify-IsUnique k f [] u = tt
  modify-IsUnique k f ((i, w) ∷ m) u =
      ground (arith, modify-IsUnique k f m u.1, lookup-modify k i f m)

module _ {A : Type 0} ⦃e : Eq A⦄ where
  unfoldable pub contains : A → List A → Bool
  contains a [] = false
  contains a (x ∷ xs) = a == x || contains a xs

  unfoldable pub set_insert : A → List A → List A
  unfolding contains
  set_insert a xs = if contains a xs then xs else a ∷ xs

  unfoldable pub set_remove : A → List A → List A
  set_remove a [] = []
  set_remove a (x ∷ xs) = let rest = set_remove a xs in if a == x then rest else x ∷ rest

  pub contains-set_insert :
      (a b : A) (xs : List A) → contains b (set_insert a xs) ≡ (b == a || contains b xs)
  unfolding set_insert
  contains-set_insert a b xs = ground arith

  pub contains-set_remove :
      (a b : A) (xs : List A) → contains b (set_remove a xs) ≡ (not (b == a) && contains b xs)
  unfolding contains set_remove
  contains-set_remove a b [] = ground arith
  contains-set_remove a b (x ∷ xs) = ground (arith, contains-set_remove a b xs)

module _ {K V : Type 0} ⦃e : Eq K⦄ where
  contains-keys_where_absent :
      (k : K) (p : V → Bool) (m : List (K × V))
      → lookup k m ≡ none
      → contains k (keys_where p m) ≡ false
  unfolding lookup contains keys_where
  contains-keys_where_absent k p [] h = refl
  contains-keys_where_absent k p ((i, w) ∷ m) h = ground (arith, contains-keys_where_absent k p m)

  pub contains-keys_where :
      (k : K) (p : V → Bool) (m : List (K × V))
      → IsUnique m
      → contains k (keys_where p m) ≡ is_some_and p (lookup k m)
  unfolding lookup contains keys_where
  contains-keys_where k p [] u = refl
  contains-keys_where k p ((i, w) ∷ m) u =
      ground (arith, contains-keys_where k p m u.1, contains-keys_where_absent i p m u.0)

module _ {A : Type 0} ⦃e : Eq A⦄ where
  -- a list without repetition
  abbrev pub IsDistinct : List A → Type 0
  IsDistinct [] = Unit
  IsDistinct (x ∷ xs) = (contains x xs ≡ false) × IsDistinct xs

  -- A list without repetition that has one member is that member alone.
  pub singleton_of_contains :
      (a : A) (xs : List A) → IsDistinct xs → ((b : A) → contains b xs ≡ (b == a)) → xs ≡ a ∷ []
  unfolding contains
  singleton_of_contains a [] d h = ground (arith, h a)
  singleton_of_contains a (x ∷ []) d h = ground (arith, h x)
  singleton_of_contains a (x ∷ y ∷ xs) d h = ground (arith, h x, h y)

module _ {K V : Type 0} ⦃e : Eq K⦄ where
  pub keys_where-IsDistinct :
      (p : V → Bool) (m : List (K × V)) → IsUnique m → IsDistinct (keys_where p m)
  unfolding keys_where
  keys_where-IsDistinct p [] u = tt
  keys_where-IsDistinct p ((i, w) ∷ m) u =
      ground (arith, keys_where-IsDistinct p m u.1, contains-keys_where_absent i p m u.0)
