-- ===== src/CodexScope/Lifecycle/Rules.antt =====
-- Rules for conditions on the state file and the calls: what each action of the adapter does to them,
-- whatever the fates.
use mathlib.Core.Path.{subst}
use shared_context_engineeri.Common.{
  ◌≡◌, refl, sym, Bool, true, false, List, ◌∷◌, if◌then◌else◌, arith,
}
use shared_context_engineeri.Common.Result.{Result, ok, err}
use shared_context_engineeri.Common.Exec.{pure, raise, ◌>>=◌}
use shared_context_engineeri.Common.Exec.Triple.{
  Post, Triple, Triple-pure, Triple-raise, Triple-bind,
}
use shared_context_engineeri.CodexScope.State.{
  AdapterState, AdapterError, seam_failed, StateTransaction, unchanged, persist,
}
use shared_context_engineeri.CodexScope.World.{
  Payload, World, Action, attempt_io, seam, seam_or_fail, read_state, commit_transaction,
  with_locked_state, commit_result, with_checked_state, with_boundary_lock,
}

abbrev pub Calls : Type 0
Calls = List (Payload × Bool)

abbrev pub Condition : Type 1
Condition = AdapterState → Calls → Type 0

-- a condition on the world that the fates have no part in
abbrev pub On : Condition → World → Type 0
On P w = P w.state w.calls

pub io-Triple :
    (P F : Condition)
    → ((s : AdapterState) (c : Calls) → P s c → F s c)
    → Triple (On P) attempt_io (λ _. On P) (On F)
unfolding attempt_io
io-Triple P F h = record { at = λ w p. ground (arith, p, h w.state w.calls p) }

-- what the transaction gives, and the state after it
abbrev pub TransactionPost :
    {A : Type 0}
    → (A → Condition)
    → AdapterState
    → List (Payload × Bool)
    → StateTransaction A
    → Type 0
TransactionPost Q s c (unchanged a) = Q a s c
TransactionPost Q s c (persist a t) = Q a t c

commit-Triple :
    {A : Type 0} (P : Condition) (Q : A → Condition) (F : Condition) (s : AdapterState)
    (t : StateTransaction A)
    → ((u : AdapterState) (c : Calls) → P u c → F u c)
    → ((c : Calls) → P s c → TransactionPost Q s c t)
    → Triple (λ w. P w.state w.calls × (w.state ≡ s)) (commit_transaction t) (λ a. On (Q a)) (On F)
unfolding commit_transaction
commit-Triple P Q F s (unchanged a) f h =
    Triple-pure a
      (λ w p. subst (λ u. Q a u w.calls) (sym p.1) (h w.calls (subst (λ u. P u w.calls) p.1 p.0)))
commit-Triple P Q F s (persist a t) f h =
    Triple-bind {Q = λ _ w. P w.state w.calls × (w.state ≡ s)} (record { at = λ w p. io_keeps w p })
      (λ _. record { at = λ w p. h w.calls (subst (λ u. P u w.calls) p.1 p.0) })
  where
    io_keeps :
        (w : World)
        → P w.state w.calls × (w.state ≡ s)
        → Post {E = AdapterError} {A = Unit {0}}
            (λ _ v. P v.state v.calls × (v.state ≡ s))
            (On F)
            (attempt_io w)
    io_keeps w p = unfold attempt_io in ground (arith, p, f w.state w.calls p.0)

read-Triple :
    (P F : Condition)
    → ((u : AdapterState) (c : Calls) → P u c → F u c)
    → Triple (On P) read_state (λ s w. P w.state w.calls × (w.state ≡ s)) (On F)
unfolding read_state
read-Triple P F f =
    Triple-bind {Q = λ _. On P} (io-Triple P F f) (λ _. record { at = λ w p. (p, refl) })

pub locked-Triple :
    {A : Type 0} (P : Condition) (Q : A → Condition) (F : Condition)
    (operation : AdapterState → StateTransaction A)
    → ((u : AdapterState) (c : Calls) → P u c → F u c)
    → ((s : AdapterState) (c : Calls) → P s c → TransactionPost Q s c (operation s))
    → Triple (On P) (with_locked_state operation) (λ a. On (Q a)) (On F)
unfolding with_locked_state
locked-Triple P Q F operation f h =
    Triple-bind (read-Triple P F f) (λ s. commit-Triple P Q F s (operation s) f (h s))

-- what an operation gives that may refuse the state
abbrev pub ResultPost :
    {A : Type 0}
    → (A → Condition)
    → AdapterState
    → List (Payload × Bool)
    → Result AdapterError (StateTransaction A)
    → Type 0
ResultPost Q s c (ok t) = TransactionPost Q s c t
ResultPost Q s c (err e) = Unit

commit_result-Triple :
    {A : Type 0} (P : Condition) (Q : A → Condition) (F : Condition) (s : AdapterState)
    (r : Result AdapterError (StateTransaction A))
    → ((u : AdapterState) (c : Calls) → P u c → F u c)
    → ((c : Calls) → P s c → ResultPost Q s c r)
    → Triple (λ w. P w.state w.calls × (w.state ≡ s)) (commit_result r) (λ a. On (Q a)) (On F)
unfolding commit_result commit_transaction
commit_result-Triple P Q F s (ok t) f h = commit-Triple P Q F s t f h
commit_result-Triple P Q F s (err e) f h = Triple-raise e (λ w p. f w.state w.calls p.0)

pub checked-Triple :
    {A : Type 0} (P : Condition) (Q : A → Condition) (F : Condition)
    (operation : AdapterState → Result AdapterError (StateTransaction A))
    → ((u : AdapterState) (c : Calls) → P u c → F u c)
    → ((s : AdapterState) (c : Calls) → P s c → ResultPost Q s c (operation s))
    → Triple (On P) (with_checked_state operation) (λ a. On (Q a)) (On F)
unfolding with_checked_state
checked-Triple P Q F operation f h =
    Triple-bind (read-Triple P F f) (λ s. commit_result-Triple P Q F s (operation s) f (h s))

pub seam-Triple :
    (P : Condition) (Q : Bool → Condition) (F : Condition) (payload : Payload)
    → ((s : AdapterState) (c : Calls) (worked : Bool) → P s c → Q worked s ((payload, worked) ∷ c))
    → Triple (On P) (seam payload) (λ worked. On (Q worked)) (On F)
unfolding seam
seam-Triple P Q F payload h = record { at = λ w p. h w.state w.calls _ p }

pub seam_or_fail-Triple :
    (P Q F : Condition) (payload : Payload)
    → ((s : AdapterState) (c : Calls) → P s c → Q s ((payload, true) ∷ c))
    → ((s : AdapterState) (c : Calls) → P s c → F s ((payload, false) ∷ c))
    → Triple (On P) (seam_or_fail payload) (λ _. On Q) (On F)
unfolding seam_or_fail
seam_or_fail-Triple P Q F payload h k =
    Triple-bind {Q = λ worked. On (after worked)} (seam-Triple P after F payload called) outcome
  where
    after : Bool → Condition
    after true = Q
    after false = F

    called :
        (s : AdapterState) (c : Calls) (worked : Bool)
        → P s c
        → after worked s ((payload, worked) ∷ c)
    called s c true p = h s c p
    called s c false p = k s c p

    outcome :
        (worked : Bool)
        → Triple
            (On (after worked))
            (if worked then pure tt else raise seam_failed)
            (λ _. On Q)
            (On F)
    outcome true = Triple-pure tt (λ w p. p)
    outcome false = Triple-raise seam_failed (λ w p. p)

pub boundary-Triple :
    {A : Type 0} (P : Condition) (Q : A → Condition) (F : Condition) (operation : Action A)
    → ((u : AdapterState) (c : Calls) → P u c → F u c)
    → Triple (On P) operation (λ a. On (Q a)) (On F)
    → Triple (On P) (with_boundary_lock operation) (λ a. On (Q a)) (On F)
unfolding with_boundary_lock
boundary-Triple P Q F operation f t = Triple-bind {Q = λ _. On P} (io-Triple P F f) (λ _. t)

-- the state that is read is the one that the rest runs on
pub read-bind-Triple :
    {A : Type 0} (P : Condition) (Q : A → Condition) (F : Condition) (f : AdapterState → Action A)
    → ((u : AdapterState) (c : Calls) → P u c → F u c)
    → ((s : AdapterState)
        → Triple (λ w. P w.state w.calls × (w.state ≡ s)) (f s) (λ a. On (Q a)) (On F))
    → Triple (On P) (read_state >>= f) (λ a. On (Q a)) (On F)
read-bind-Triple P Q F f i t = Triple-bind (read-Triple P F i) t
