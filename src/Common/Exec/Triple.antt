-- ===== src/Common/Exec/Triple.antt =====
-- What an action does to a state that meets a condition.
use shared_context_engineeri.Common.Result.{Result, ok, err}
use shared_context_engineeri.Common.Exec.{Exec, pure, raise, continue, ◌>>=◌}

-- of the value and the state after a success, or of the state after a failure
abbrev pub Post : {E S A : Type 0} → (A → S → Type 0) → (S → Type 0) → Result E A × S → Type 0
Post Q F (ok a, s) = Q a s
Post Q F (err e, s) = F s

-- From a state in `P` the action ends in `Q`, or fails in `F`.
pub record Triple {E S A : Type 0} (P : S → Type 0) (m : Exec E S A) (Q : A → S → Type 0)
    (F : S → Type 0) : Type 0 where
  pub at : (s : S) → P s → Post Q F (m s)

module _ {E S A : Type 0} {P : S → Type 0} {Q : A → S → Type 0} {F : S → Type 0} where
  pub Triple-pure : (a : A) → ((s : S) → P s → Q a s) → Triple {E = E} P (pure a) Q F
  Triple-pure a h = record { at = h }

  pub Triple-raise : (e : E) → ((s : S) → P s → F s) → Triple P (raise e) Q F
  Triple-raise e h = record { at = h }

module _ {E S A B : Type 0} {Q : A → S → Type 0} {R : B → S → Type 0} {F : S → Type 0} where
  Post-continue :
      (f : A → Exec E S B) (r : Result E A) (s : S)
      → Post Q F (r, s)
      → ((a : A) → Triple (Q a) (f a) R F)
      → Post R F (continue r f s)
  Post-continue f (ok a) s q h = (h a).at s q
  Post-continue f (err e) s q h = q

  pub Triple-bind :
      {P : S → Type 0} {m : Exec E S A} {f : A → Exec E S B}
      → Triple P m Q F
      → ((a : A) → Triple (Q a) (f a) R F)
      → Triple P (m >>= f) R F
  unfolding ◌>>=◌
  Triple-bind {P} {m} {f} t h = record {
    at = λ s p. let (r, u) = m s in Post-continue f r u (t.at s p) h;
  }

-- `m` keeps `P`, whether it returns or fails
abbrev pub Keeps : {E S A : Type 0} → (S → Type 0) → Exec E S A → Type 0
Keeps P m = Triple P m (λ _. P) P
