-- ===== src/CodexScope/Lifecycle/Sweep.antt =====
-- The loop over the stale attempts ends.
use shared_context_engineeri.Common.{
  ℕ, zero, suc, ◌≤◌, ◌<◌, ◌≡◌, refl, String, Bool, true, false, some, List, [], ◌∷◌, length, filter,
  ◌==◌, ◌!=◌, string_eq, Option-cases, inl, inr, arith,
}
use shared_context_engineeri.Common.Result.{Result, ok, err}
use shared_context_engineeri.Common.Exec.{raise, continue, ◌>>=◌}
use shared_context_engineeri.Common.Exec.Triple.{Post, Triple, Triple-bind}
use shared_context_engineeri.CodexScope.{AttemptKey}
use shared_context_engineeri.CodexScope.State.{
  AdapterAttempt, AdapterState, AdapterError, io_failed, seam_failed, attempt_not_found,
  out_of_fuel, StateTransaction, find, any, remove_attempt, arm_recovery,
}
use shared_context_engineeri.CodexScope.World.{
  Payload, abandon, World, Action, attempt_io, seam, seam_or_fail, read_state, commit_transaction,
  with_locked_state, later_fates,
}
use shared_context_engineeri.CodexScope.Lifecycle.{
  for_found, abandon_attempt, is_stale, sweep_stale_lane_predecessors,
}
use shared_context_engineeri.CodexScope.Lifecycle.Rules.{
  Condition, Calls, On, TransactionPost, locked-Triple, seam_or_fail-Triple,
}

abbrev pub is_fueled : {A : Type 0} → Result AdapterError A → Bool
is_fueled (ok _) = true
is_fueled (err out_of_fuel) = false
is_fueled (err io_failed) = true
is_fueled (err seam_failed) = true
is_fueled (err attempt_not_found) = true

module _ {A B : Type 0} where
  continue-fueled :
      (Q : A → World → Type 0) (f : A → Action B) (r : Result AdapterError A) (w : World)
      → Post Q (λ _. Unit) (r, w)
      → is_fueled r ≡ true
      → ((a : A) (v : World) → Q a v → is_fueled (f a v).0 ≡ true)
      → is_fueled (continue r f w).0 ≡ true
  continue-fueled Q f (ok a) w q e h = h a w q
  continue-fueled Q f (err io_failed) w q e h = refl
  continue-fueled Q f (err seam_failed) w q e h = refl
  continue-fueled Q f (err attempt_not_found) w q e h = refl
  continue-fueled Q f (err out_of_fuel) w q e h = e

  bind-fueled :
      (P : World → Type 0) (Q : A → World → Type 0) (m : Action A) (f : A → Action B) (w : World)
      → Triple P m Q (λ _. Unit)
      → P w
      → is_fueled (m w).0 ≡ true
      → ((a : A) (v : World) → Q a v → is_fueled (f a v).0 ≡ true)
      → is_fueled ((m >>= f) w).0 ≡ true
  unfolding ◌>>=◌
  bind-fueled P Q m f w t p e h = let (r, v) = m w in continue-fueled Q f r v (t.at w p) e h

locked-fueled :
    {A : Type 0} (operation : AdapterState → StateTransaction A) (w : World)
    → is_fueled (with_locked_state operation w).0 ≡ true
unfolding with_locked_state read_state commit_transaction attempt_io ◌>>=◌
locked-fueled operation w = ground arith

seam-fueled : (payload : Payload) (w : World) → is_fueled (seam_or_fail payload w).0 ≡ true
unfolding seam_or_fail seam ◌>>=◌
seam-fueled payload w = ground arith

pub length-filter :
    (p : AdapterAttempt → Bool) (attempts : List AdapterAttempt)
    → length (filter p attempts) ≤ length attempts
unfolding filter
length-filter p [] = omega arith
length-filter p (a ∷ attempts) = ground (arith, length-filter p attempts)

-- the scope has an attempt
abbrev pub has_scope : String → List AdapterAttempt → Bool
has_scope id attempts = any (λ a. a.scope_id == id) attempts

pub length-without :
    (id : String) (attempts : List AdapterAttempt)
    → has_scope id attempts ≡ true
    → length (filter (λ a. a.scope_id != id) attempts) < length attempts
unfolding any filter
length-without id [] h = ground (arith, h)
length-without id (a ∷ attempts) h =
    ground (arith, length-without id attempts, length-filter (λ b. b.scope_id != id) attempts, h)

pub has_scope-find :
    (p : AdapterAttempt → Bool) (attempts : List AdapterAttempt) (a : AdapterAttempt)
    → find p attempts ≡ some a
    → has_scope a.scope_id attempts ≡ true
unfolding find any
has_scope-find p [] a h = ground (arith, h)
has_scope-find p (b ∷ attempts) a h = ground (arith, has_scope-find p attempts a, h)

-- at most `n` attempts, one of them of the scope
abbrev Pending : ℕ → String → Condition
Pending n id s c = (length s.attempts ≤ n) × (has_scope id s.attempts ≡ true)

abbrev AtMost : ℕ → Condition
AtMost n s c = length s.attempts ≤ n

remove_attempt-AtMost :
    (n : ℕ) (id : String) (s : AdapterState) (c : Calls)
    → Pending (suc n) id s c
    → TransactionPost (λ _. AtMost n) s c (remove_attempt id s)
unfolding remove_attempt
remove_attempt-AtMost n id s c h = ground (arith, length-without id s.attempts h.1, h)

abandon_attempt-AtMost :
    (n : ℕ) (a : AdapterAttempt)
    → Triple (On (Pending (suc n) a.scope_id)) (abandon_attempt a) (λ _. On (AtMost n)) (λ _. Unit)
unfolding abandon_attempt arm_recovery
abandon_attempt-AtMost n a =
    let before : Condition = Pending (suc n) a.scope_id in
    let failed : Condition = λ s c. Unit in
    Triple-bind {Q = λ _. On before}
      (locked-Triple before (λ _. before) failed arm_recovery (λ s c h. tt)
        (λ s c h. ground (arith, h)))
      (λ _.
        Triple-bind {Q = λ _. On before}
          (seam_or_fail-Triple before before failed (abandon a.scope_id) (λ s c h. h) (λ s c h. tt))
          (λ _.
            locked-Triple before (λ _. AtMost n) failed (remove_attempt a.scope_id) (λ s c h. tt)
              (remove_attempt-AtMost n a.scope_id)))

abandon_attempt-fueled : (a : AdapterAttempt) (w : World) → is_fueled (abandon_attempt a w).0 ≡ true
unfolding abandon_attempt
abandon_attempt-fueled a w =
    bind-fueled (λ _. Unit) (λ _ _. Unit) (with_locked_state arm_recovery) _ w
      (trivial (with_locked_state arm_recovery)) tt (locked-fueled arm_recovery w)
      (λ n v _.
        bind-fueled (λ _. Unit) (λ _ _. Unit) (seam_or_fail (abandon a.scope_id)) _ v
          (trivial (seam_or_fail (abandon a.scope_id))) tt (seam-fueled (abandon a.scope_id) v)
          (λ _ u _. locked-fueled (remove_attempt a.scope_id) u))
  where
    either :
        {A : Type 0} (r : Result AdapterError A) (u : World)
        → Post {A = A} (λ _ _. Unit {0}) (λ _. Unit {0}) (r, u)
    either (ok x) u = tt
    either (err e) u = tt

    trivial :
        {A : Type 0} (m : Action A)
        → Triple {A = A} (λ _. Unit {0}) m (λ _ _. Unit {0}) (λ _. Unit {0})
    trivial m = record { at = λ u _. either (m u).0 (m u).1 }

found-fueled :
    (p : AdapterAttempt → Bool) (f : AdapterAttempt → Action (Unit {0})) (w : World)
    → ((a : AdapterAttempt) (v : World)
        → find p w.state.attempts ≡ some a
        → v.state ≡ w.state
        → is_fueled (f a v).0 ≡ true)
    → is_fueled ((read_state >>= λ current. for_found (find p current.attempts) f) w).0 ≡ true
unfolding read_state attempt_io ◌>>=◌
found-fueled p f w h = elim (Option-cases (find p w.state.attempts)) [
  | inl e ↦ ground (arith, e)
  | inr (a, e) ↦ ground (arith, e, h a (record w { fates = later_fates w.fates }) e refl)
]

pub found-nonempty :
    (p : AdapterAttempt → Bool) (attempts : List AdapterAttempt) (a : AdapterAttempt)
    → find p attempts ≡ some a
    → 0 < length attempts
unfolding find
found-nonempty p [] a h = ground (arith, h)
found-nonempty p (b ∷ attempts) a h = omega arith

-- With as much fuel as there are attempts the loop over the stale attempts does not run out of it:
-- each round removes an attempt or fails.
pub sweep-is_fueled :
    (fuel : ℕ) (key : AttemptKey) (turn_id : String) (w : World)
    → length w.state.attempts ≤ fuel
    → is_fueled (sweep_stale_lane_predecessors fuel key turn_id w).0 ≡ true
unfolding sweep_stale_lane_predecessors
sweep-is_fueled zero key turn_id w h =
    found-fueled (is_stale key turn_id) (λ _. raise out_of_fuel) w
      (λ a v e q.
        absurd (omega (arith, h, found-nonempty (is_stale key turn_id) w.state.attempts a e)))
sweep-is_fueled (suc fuel) key turn_id w h =
    let ih = sweep-is_fueled fuel key turn_id in
    let stale = is_stale key turn_id in
    found-fueled stale
      (λ a. abandon_attempt a >>= λ _. sweep_stale_lane_predecessors fuel key turn_id) w
      (λ a v e q.
        bind-fueled (On (Pending (suc fuel) a.scope_id)) (λ _. On (AtMost fuel)) (abandon_attempt a)
          (λ _. sweep_stale_lane_predecessors fuel key turn_id) v (abandon_attempt-AtMost fuel a)
          (rw q (h, has_scope-find stale w.state.attempts a e)) (abandon_attempt-fueled a v)
          (λ _ u. ih u))
