-- ===== src/CodexScope/Lifecycle/Handlers.antt =====
-- A condition that every transaction and every call keeps is kept by every handler.
use shared_context_engineeri.Common.{
  ℕ, zero, suc, ◌≡◌, String, Bool, true, false, Option, none, some, List, [], ◌∷◌, filter, ◌==◌,
  ◌&&◌, if◌then◌else◌,
}
use shared_context_engineeri.Common.Exec.{◌>>=◌}
use shared_context_engineeri.Common.Exec.Triple.{
  Triple, Triple-pure, Triple-raise, Triple-bind, Keeps,
}
use shared_context_engineeri.CodexScope.{AttemptKey}
use shared_context_engineeri.CodexScope.State.{
  AdapterAttempt, pending_start, active, attempt_phase_eq, matches_key, AdapterState,
  AllocatedAttempt, AdmitDecision, admitted, recovery_blocked, uncertain_attempt_blocked,
  stale_predecessor_blocked, flush_claimed, out_of_fuel, find, admit_tracked_attempt, mark_active,
  remove_attempt, normalize_recovery, arm_recovery, complete_recovery_flush,
  relinquish_recovery_flush,
}
use shared_context_engineeri.CodexScope.World.{
  start, close, abandon, flush, Action, read_state, with_locked_state,
}
use shared_context_engineeri.CodexScope.Lifecycle.{
  abandon_attempt, is_stale, for_found, sweep_stale_lane_predecessors, close_active, handle_close,
  abandon_all, cleanup_attempts_matching,
}
use shared_context_engineeri.CodexScope.Lifecycle.Rules.{
  Condition, On, Calls, TransactionPost, ResultPost, locked-Triple, seam-Triple,
  seam_or_fail-Triple, read-bind-Triple,
}

-- What a decision of `admit_tracked_attempt` leaves.
abbrev pub Decided : (AllocatedAttempt → Condition) → Condition → AdmitDecision → Condition
Decided G K (admitted allocated) = G allocated
Decided G K (flush_claimed generation) = K
Decided G K recovery_blocked = K
Decided G K uncertain_attempt_blocked = K
Decided G K stale_predecessor_blocked = K

-- `Kept` is the condition. In between, `Armed` holds before an abandonment, `Flushed` after a flush,
-- `Granted` after an admission, `Started` after the start of the scope, `Established` in the end.
pub record Upkeep : Type 1 where
  pub Kept : Condition
  pub Armed : Condition
  pub Flushed : Condition
  pub Granted : AttemptKey → AllocatedAttempt → Condition
  pub Started : AttemptKey → AllocatedAttempt → Condition
  pub Established : AttemptKey → Condition
  pub armed_kept : (s : AdapterState) (c : Calls) → Armed s c → Kept s c
  pub flushed_kept : (s : AdapterState) (c : Calls) → Flushed s c → Kept s c
  pub established_kept :
      (key : AttemptKey) (s : AdapterState) (c : Calls) → Established key s c → Kept s c
  pub granted_kept :
      (key : AttemptKey) (al : AllocatedAttempt) (s : AdapterState) (c : Calls)
      → Granted key al s c
      → Kept s c
  pub started_kept :
      (key : AttemptKey) (al : AllocatedAttempt) (s : AdapterState) (c : Calls)
      → Started key al s c
      → Kept s c
  pub arms :
      (s : AdapterState) (c : Calls) → Kept s c → TransactionPost (λ _. Armed) s c (arm_recovery s)
  pub abandons :
      (id : String) (worked : Bool) (s : AdapterState) (c : Calls)
      → Armed s c
      → Kept s ((abandon id, worked) ∷ c)
  pub removes :
      (id : String) (s : AdapterState) (c : Calls)
      → Kept s c
      → TransactionPost (λ _. Kept) s c (remove_attempt id s)
  pub closes :
      (id : String) (worked : Bool) (s : AdapterState) (c : Calls)
      → Kept s c
      → Kept s ((close id, worked) ∷ c)
  pub normalizes :
      (s : AdapterState) (c : Calls)
      → Kept s c
      → TransactionPost (λ _. Kept) s c (normalize_recovery s)
  pub admits :
      (key : AttemptKey) (turn_id tool_name : String) (s : AdapterState) (c : Calls)
      → Kept s c
      → TransactionPost
          (Decided (Granted key) Kept)
          s
          c
          (admit_tracked_attempt key turn_id tool_name s)
  pub flushes : (s : AdapterState) (c : Calls) → Kept s c → Flushed s ((flush, true) ∷ c)
  pub fails_to_flush : (s : AdapterState) (c : Calls) → Kept s c → Kept s ((flush, false) ∷ c)
  pub completes :
      (generation : ℕ) (s : AdapterState) (c : Calls)
      → Flushed s c
      → TransactionPost (λ _. Kept) s c (complete_recovery_flush generation s)
  pub relinquishes :
      (generation : ℕ) (s : AdapterState) (c : Calls)
      → Kept s c
      → TransactionPost (λ _. Kept) s c (relinquish_recovery_flush generation s)
  pub starts :
      (key : AttemptKey) (al : AllocatedAttempt) (s : AdapterState) (c : Calls)
      → Granted key al s c
      → Started key al s ((start al.attempt.scope_id, true) ∷ c)
  pub fails_to_start :
      (key : AttemptKey) (al : AllocatedAttempt) (s : AdapterState) (c : Calls)
      → Granted key al s c
      → Kept s ((start al.attempt.scope_id, false) ∷ c)
  pub marks :
      (key : AttemptKey) (al : AllocatedAttempt) (s : AdapterState) (c : Calls)
      → Started key al s c
      → ResultPost (λ _. Established key) s c (mark_active al.attempt.scope_id s)
  pub reuses :
      (key : AttemptKey) (al : AllocatedAttempt) (s : AdapterState) (c : Calls)
      → (al.reused && al.attempt.phase == active) ≡ true
      → Granted key al s c
      → Established key s c

module _ (u : Upkeep) where
  same : (s : AdapterState) (c : Calls) → u.Kept s c → u.Kept s c
  same s c h = h

  pub removes-Keeps : (id : String) → Keeps (On u.Kept) (with_locked_state (remove_attempt id))
  removes-Keeps id =
      locked-Triple u.Kept (λ _. u.Kept) u.Kept (remove_attempt id) same (u.removes id)

  pub abandon_attempt-Keeps : (a : AdapterAttempt) → Keeps (On u.Kept) (abandon_attempt a)
  unfolding abandon_attempt
  abandon_attempt-Keeps a =
      Triple-bind {Q = λ _. On u.Armed}
        (locked-Triple u.Kept (λ _. u.Armed) u.Kept arm_recovery same u.arms)
        (λ _.
          Triple-bind {Q = λ _. On u.Kept}
            (seam_or_fail-Triple u.Armed u.Kept u.Kept (abandon a.scope_id)
              (u.abandons a.scope_id true) (u.abandons a.scope_id false))
            (λ _. removes-Keeps a.scope_id))

  find-Keeps :
      (p : AdapterAttempt → Bool) (f : AdapterAttempt → Action (Unit {0})) (P : Condition)
      → ((a : AdapterAttempt) → Keeps (On P) (f a))
      → Keeps (On P) (read_state >>= λ current. for_found (find p current.attempts) f)
  find-Keeps p f P h =
      read-bind-Triple P (λ _. P) P _ (λ s c q. q) (λ s. found s (find p s.attempts))
    where
      found :
          (s : AdapterState) (o : Option AdapterAttempt)
          → Triple (λ w. P w.state w.calls × (w.state ≡ s)) (for_found o f) (λ _. On P) (On P)
      found s none = Triple-pure tt (λ w q. q.0)
      found s (some a) = record { at = λ w q. (h a).at w q.0 }

  pub sweep-Keeps :
      (fuel : ℕ) (key : AttemptKey) (turn_id : String)
      → Keeps (On u.Kept) (sweep_stale_lane_predecessors fuel key turn_id)
  unfolding sweep_stale_lane_predecessors
  sweep-Keeps zero key turn_id =
      find-Keeps (is_stale key turn_id) _ u.Kept (λ a. Triple-raise out_of_fuel (λ w h. h))
  sweep-Keeps (suc fuel) key turn_id =
      let rest = sweep-Keeps fuel key turn_id in
      find-Keeps (is_stale key turn_id) _ u.Kept
        (λ a. Triple-bind {Q = λ _. On u.Kept} (abandon_attempt-Keeps a) (λ _. rest))

  close_active-Keeps : (a : AdapterAttempt) → Keeps (On u.Kept) (close_active a)
  unfolding close_active
  close_active-Keeps a =
      Triple-bind {Q = λ _. On u.Kept}
        (seam-Triple u.Kept (λ _. u.Kept) u.Kept (close a.scope_id)
          (λ s c worked h. u.closes a.scope_id worked s c h))
        after
    where
      after :
          (worked : Bool)
          → Keeps
              (On u.Kept)
              (if worked then with_locked_state (remove_attempt a.scope_id) else abandon_attempt a)
      after true = removes-Keeps a.scope_id
      after false = abandon_attempt-Keeps a

  pub handle_close-Keeps : (key : AttemptKey) → Keeps (On u.Kept) (handle_close key)
  unfolding handle_close
  handle_close-Keeps key =
      find-Keeps (matches_key key) _ u.Kept (λ a. by_phase a (a.phase == pending_start))
    where
      by_phase :
          (a : AdapterAttempt) (b : Bool)
          → Keeps (On u.Kept) (if b then abandon_attempt a else close_active a)
      by_phase a true = abandon_attempt-Keeps a
      by_phase a false = close_active-Keeps a

  abandon_all-Keeps : (attempts : List AdapterAttempt) → Keeps (On u.Kept) (abandon_all attempts)
  unfolding abandon_all
  abandon_all-Keeps [] = Triple-pure tt (λ w h. h)
  abandon_all-Keeps (a ∷ attempts) =
      let rest = abandon_all-Keeps attempts in
      Triple-bind {Q = λ _. On u.Kept} (abandon_attempt-Keeps a) (λ _. rest)

  pub cleanup_attempts-Keeps :
      (predicate : AdapterAttempt → Bool) → Keeps (On u.Kept) (cleanup_attempts_matching predicate)
  unfolding cleanup_attempts_matching
  cleanup_attempts-Keeps predicate =
      read-bind-Triple u.Kept (λ _. u.Kept) u.Kept _ same
        (λ s. record { at = λ w q. (abandon_all-Keeps (filter predicate s.attempts)).at w q.0 })
