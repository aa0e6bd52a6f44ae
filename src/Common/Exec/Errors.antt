-- ===== src/Common/Exec/Errors.antt =====
-- Actions whose error tells what they did: the errors as values, and a condition for each error.
use shared_context_engineeri.Common.{Option, none, some, Bool, true, false, if◌then◌else◌}
use shared_context_engineeri.Common.Result.{Result, ok, err}
use shared_context_engineeri.Common.Exec.{Exec, pure, raise, continue, ◌>>=◌}

-- of the value and the state after a success, or of the error and the state after a failure
abbrev pub Post : {E S A : Type 0} → (A → S → Type 0) → (E → S → Type 0) → Result E A × S → Type 0
Post Q F (ok a, s) = Q a s
Post Q F (err e, s) = F e s

-- From a state in `P` the action returns in `Q`, or fails in `F`.
pub record Ends {E S A : Type 0} (P : S → Type 0) (m : Exec E S A) (Q : A → S → Type 0)
    (F : E → S → Type 0) : Type 0 where
  pub at : (s : S) → P s → Post Q F (m s)

-- `m` leaves `P` as it is
abbrev pub Leaves : {E S A : Type 0} → (S → Type 0) → Exec E S A → Type 0
Leaves P m = Ends P m (λ _. P) (λ _. P)

module _ {E D S A : Type 0} where
  abbrev pub handle : (E → Exec D S A) → Result E A × S → Result D A × S
  handle f (ok a, s) = (ok a, s)
  handle f (err e, s) = f e s

  -- the error is handled
  unfoldable pub catch : Exec E S A → (E → Exec D S A) → Exec D S A
  catch m f s = handle f (m s)

  Post-handle :
      (P : E → S → Type 0) (Q : A → S → Type 0) (F : D → S → Type 0) (f : E → Exec D S A)
      (r : Result E A × S)
      → Post Q P r
      → ((e : E) → Ends (P e) (f e) Q F)
      → Post Q F (handle f r)
  Post-handle P Q F f (ok a, s) q h = q
  Post-handle P Q F f (err e, s) q h = (h e).at s q

  pub Ends-catch :
      {R : S → Type 0} {P : E → S → Type 0} {Q : A → S → Type 0} {F : D → S → Type 0}
      {m : Exec E S A} {f : E → Exec D S A}
      → Ends R m Q P
      → ((e : E) → Ends (P e) (f e) Q F)
      → Ends R (catch m f) Q F
  unfolding catch
  Ends-catch {R} {P} {Q} {F} {m} {f} t h = record {
    at = λ s p. Post-handle P Q F f (m s) (t.at s p) h;
  }

  -- `map_err`
  unfoldable pub map_err : (E → D) → Exec E S A → Exec D S A
  unfolding catch
  map_err f m = catch m λ e. raise (f e)

  pub Ends-map_err :
      {P : S → Type 0} {Q : A → S → Type 0} {F : D → S → Type 0} {m : Exec E S A} (f : E → D)
      → Ends P m Q (λ e. F (f e))
      → Ends P (map_err f m) Q F
  unfolding map_err
  Ends-map_err f h = Ends-catch h λ e. record { at = λ s p. p }

module _ {E D S A : Type 0} where
  -- `err`: the error as a value
  unfoldable pub err_of : Exec E S A → Exec D S (Option E)
  unfolding catch ◌>>=◌
  err_of m = catch (m >>= λ _. pure none) λ e. pure (some e)

module _ {E S A B : Type 0} {Q : A → S → Type 0} {R : B → S → Type 0} {F : E → S → Type 0} where
  Post-continue :
      (f : A → Exec E S B) (r : Result E A) (s : S)
      → Post Q F (r, s)
      → ((a : A) → Ends (Q a) (f a) R F)
      → Post R F (continue r f s)
  Post-continue f (ok a) s q h = (h a).at s q
  Post-continue f (err e) s q h = q

  pub Ends-bind :
      {P : S → Type 0} {m : Exec E S A} {f : A → Exec E S B}
      → Ends P m Q F
      → ((a : A) → Ends (Q a) (f a) R F)
      → Ends P (m >>= f) R F
  unfolding ◌>>=◌
  Ends-bind {P} {m} {f} t h = record {
    at = λ s p. let (r, u) = m s in Post-continue f r u (t.at s p) h;
  }

pub Ends-err_of :
    {E D S A : Type 0} {P R : S → Type 0} {F : D → S → Type 0} {m : Exec E S A}
    → Ends P m (λ _. R) (λ _. R)
    → Ends P (err_of {D = D} m) (λ _. R) F
unfolding err_of
Ends-err_of h = Ends-catch (Ends-bind h λ a. record { at = λ s p. p }) λ e. record { at = λ s p. p }

Post-weaken :
    {E S A : Type 0} (Q : A → S → Type 0) (F G : E → S → Type 0) (r : Result E A × S)
    → Post Q G r
    → ((e : E) (s : S) → G e s → F e s)
    → Post Q F r
Post-weaken Q F G (ok a, s) q h = q
Post-weaken Q F G (err e, s) q h = h e s q

module _ {E S A : Type 0} {P : S → Type 0} {Q : A → S → Type 0} {F : E → S → Type 0} where
  pub Ends-if :
      {m n : Exec E S A} (b : Bool) → Ends P m Q F → Ends P n Q F → Ends P (if b then m else n) Q F
  Ends-if true h k = h
  Ends-if false h k = k

  pub Ends-weaken :
      {G : E → S → Type 0} {m : Exec E S A}
      → Ends P m Q G
      → ((e : E) (s : S) → G e s → F e s)
      → Ends P m Q F
  Ends-weaken {G} {m} t h = record { at = λ s p. Post-weaken Q F G (m s) (t.at s p) h }
