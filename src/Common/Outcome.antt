-- ===== src/Common/Outcome.antt =====
-- Results of fallible code that may also panic.
use mathlib.Core.Bool.{Bool, true, false}
use mathlib.Core.Logic.{◌⊎◌, inl, inr}
use mathlib.Core.Option.{Option, none, some}
use mathlib.Core.Path.{◌≡◌, refl, subst}

pub data Outcome (E A : Type 0) : Type 0 where
  ok : A → Outcome E A
  err : E → Outcome E A
  panicked : Outcome E A

module _ {E : Type 0} where
  infixl 5 ◌>>=◌ ◌>>◌
  abbrev pub ◌>>=◌ : {A B : Type 0} → Outcome E A → (A → Outcome E B) → Outcome E B
  ok a >>= f = f a
  err e >>= f = err e
  panicked >>= f = panicked

  abbrev pub ◌>>◌ : {B : Type 0} → Outcome E (Unit {0}) → Outcome E B → Outcome E B
  m >> k = m >>= λ _. k

  abbrev pub ok_or : {A : Type 0} → Option A → E → Outcome E A
  ok_or none e = err e
  ok_or (some a) e = ok a

  -- `if !test { return Err(e) }`
  abbrev pub ensure : Bool → E → Outcome E (Unit {0})
  ensure true e = ok tt
  ensure false e = err e

module _ {E A : Type 0} where
  -- What holds of the value, if there is one.
  abbrev pub Ensures : (A → Type 0) → Outcome E A → Type 0
  Ensures P (ok a) = P a
  Ensures P (err e) = Unit
  Ensures P panicked = Unit

  pub of_Ensures : (P : A → Type 0) (m : Outcome E A) {a : A} → Ensures P m → m ≡ ok a → P a
  of_Ensures P m {a} h e = subst (Ensures P) e h

module _ {E A B : Type 0} where
  -- To prove something of a bind: the first part ensures what the second part needs.
  pub Ensures-bind :
      (P : A → Type 0) (Q : B → Type 0) (m : Outcome E A) (f : A → Outcome E B)
      → Ensures P m
      → ((a : A) → P a → Ensures Q (f a))
      → Ensures Q (m >>= f)
  Ensures-bind P Q (ok a) f h k = k a h
  Ensures-bind P Q (err e) f h k = tt
  Ensures-bind P Q panicked f h k = tt

module _ {E B : Type 0} where
  pub Ensures-ensure :
      (Q : B → Type 0) (b : Bool) (e : E) (m : Outcome E B)
      → (b ≡ true → Ensures Q m)
      → Ensures Q (ensure b e >> m)
  Ensures-ensure Q true e m h = h refl
  Ensures-ensure Q false e m h = tt

  -- The value that is returned is the one that the computation equals.
  pub Ensures-self : (m : Outcome E B) → Ensures (λ b. m ≡ ok b) m
  Ensures-self (ok b) = refl
  Ensures-self (err e) = tt
  Ensures-self panicked = tt

  -- To prove something of the value, from the equation that gives it.
  pub Ensures-map : (P : B → Type 0) (m : Outcome E B) → ((b : B) → m ≡ ok b → P b) → Ensures P m
  Ensures-map P (ok b) h = h b refl
  Ensures-map P (err e) h = tt
  Ensures-map P panicked h = tt

  pub Outcome-cases :
      (m : Outcome E B) → ((b : B) × (m ≡ ok b)) ⊎ (((e : E) × (m ≡ err e)) ⊎ (m ≡ panicked))
  Outcome-cases (ok b) = inl (b, refl)
  Outcome-cases (err e) = inr (inl (e, refl))
  Outcome-cases panicked = inr (inr refl)
