-- ===== src/CodexScope/Lifecycle/Quarantine.antt =====
-- After an abandonment no scope starts before a flush has worked.
pub mod Established
use shared_context_engineeri.Common.{
  string_eq, nat_eq, ℕ, zero, suc, ◌≡◌, refl, String, Bool, true, false, not, Option, none, some,
  List, [], ◌∷◌, ◌++◌, length, filter, ◌==◌, ◌&&◌, ◌||◌, if◌then◌else◌, Option-cases, Bool-cases,
  inl, inr, arith, is_some_and,
}
use shared_context_engineeri.Common.Result.{Result, ok, err}
use shared_context_engineeri.Common.Exec.{Exec, pure, raise, ◌>>=◌}
use shared_context_engineeri.Common.Exec.Triple.{
  Post, Triple, Triple-pure, Triple-raise, Triple-bind, Keeps,
}
use shared_context_engineeri.CodexScope.{AttemptKey, CodexToolIdentity, attempt_key}
use shared_context_engineeri.CodexScope.State.{
  RecoveryState, clear, pending, flushing, AdapterAttempt, pending_start, active, attempt_phase_eq,
  matches_key, AdapterState, AllocatedAttempt, AdmitDecision, admitted, recovery_blocked,
  uncertain_attempt_blocked, stale_predecessor_blocked, flush_claimed, RecoveryFlushCompletion,
  cleared, superseded, AdapterError, out_of_fuel, StateTransaction, find, any, admit_clear,
  admit_tracked_attempt, mark_active, remove_attempt, normalize_recovery, arm_recovery,
  complete_recovery_flush, relinquish_recovery_flush,
}
use shared_context_engineeri.CodexScope.World.{
  Payload, start, close, abandon, flush, Action, attempt_io, with_boundary_lock, World, read_state,
  with_locked_state,
}
use shared_context_engineeri.CodexScope.Lifecycle.{
  abandon_attempt, is_stale, for_found, sweep_stale_lane_predecessors, Admission, granted, denied,
  after_readmission, readmit_after_flush, after_completion, after_flush, after_decision,
  admit_or_recover, establish_start, establish, close_active, handle_close, abandon_all,
  cleanup_attempts_matching, tracked_pre_tool_use,
}
use shared_context_engineeri.CodexScope.Lifecycle.Rules.{
  Condition, On, Calls, io-Triple, TransactionPost, ResultPost, locked-Triple, checked-Triple,
  seam-Triple, seam_or_fail-Triple, boundary-Triple, read-bind-Triple,
}
use shared_context_engineeri.CodexScope.{CodexHookEvent}
use shared_context_engineeri.CodexScope.State.{default_state, new_attempt, activate}
use shared_context_engineeri.CodexScope.Lifecycle.{BashPolicy, run}
use shared_context_engineeri.CodexScope.Lifecycle.Handlers.{Decided, Upkeep}
use shared_context_engineeri.CodexScope.Lifecycle.Events.{run-Kept}

-- A scope was abandoned, or an abandonment was tried, and no flush has worked since.
abbrev pub needs_flush : Calls → Bool
needs_flush [] = false
needs_flush ((abandon _, _) ∷ _) = true
needs_flush ((flush, true) ∷ _) = false
needs_flush ((flush, false) ∷ calls) = needs_flush calls
needs_flush ((start _, _) ∷ calls) = needs_flush calls
needs_flush ((close _, _) ∷ calls) = needs_flush calls

-- No start was called while a flush was needed.
abbrev pub is_ordered : Calls → Bool
is_ordered [] = true
is_ordered ((start _, _) ∷ calls) = not (needs_flush calls) && is_ordered calls
is_ordered ((abandon _, _) ∷ calls) = is_ordered calls
is_ordered ((flush, _) ∷ calls) = is_ordered calls
is_ordered ((close _, _) ∷ calls) = is_ordered calls

abbrev pub is_clear : RecoveryState → Bool
is_clear clear = true
is_clear (pending _) = false
is_clear (flushing _) = false

-- The calls are in order, and while a flush is needed a recovery is outstanding.
abbrev pub is_quarantined : AdapterState → Calls → Bool
is_quarantined s c = is_ordered c && (not (needs_flush c) || not (is_clear s.recovery))

abbrev pub IsQuarantined : Condition
IsQuarantined s c = is_quarantined s c ≡ true

abbrev pub IsArmed : Condition
IsArmed s c = (is_ordered c ≡ true) × (is_clear s.recovery ≡ false)

-- an attempt of the scope is active
abbrev pub has_active : String → List AdapterAttempt → Bool
has_active id attempts = any (λ b. b.scope_id == id && b.phase == active) attempts

abbrev pub scope_of : Option AdapterAttempt → Option String
scope_of none = none
scope_of (some a) = some a.scope_id

-- the scope of the key's attempt is active
abbrev pub is_covered : AttemptKey → List AdapterAttempt → Bool
is_covered key attempts =
    is_some_and (λ id. has_active id attempts) (scope_of (find (matches_key key) attempts))

-- No flush is needed, no recovery is outstanding, and the attempt has an active scope.
abbrev pub is_established : AttemptKey → AdapterState → Calls → Bool
is_established key s c =
    is_ordered c && not (needs_flush c) && is_clear s.recovery && is_covered key s.attempts

abbrev pub Granted : AttemptKey → AllocatedAttempt → Condition
Granted key al s c =
    (is_ordered c ≡ true)
    × (needs_flush c ≡ false)
    × (is_clear s.recovery ≡ true)
    × (find (matches_key key) s.attempts ≡ some al.attempt)

find-snoc :
    (p : AdapterAttempt → Bool) (attempts : List AdapterAttempt) (a : AdapterAttempt)
    → find p attempts ≡ none
    → p a ≡ true
    → find p (attempts ++ a ∷ []) ≡ some a
unfolding find
find-snoc p [] a h k = ground (arith, k)
find-snoc p (b ∷ attempts) a h k = ground (arith, find-snoc p attempts a, h, k)

pub has_active-find :
    (p : AdapterAttempt → Bool) (attempts : List AdapterAttempt) (a : AdapterAttempt)
    → find p attempts ≡ some a
    → (a.phase == active) ≡ true
    → has_active a.scope_id attempts ≡ true
unfolding find any
has_active-find p [] a h k = ground (arith, h)
has_active-find p (b ∷ attempts) a h k = ground (arith, has_active-find p attempts a, h, k)

has_active-activate :
    (id : String) (attempts : List AdapterAttempt) (a : AdapterAttempt)
    → find (λ b. b.scope_id == id) attempts ≡ some a
    → has_active id (activate id attempts) ≡ true
unfolding find any activate
has_active-activate id [] a h = ground (arith, h)
has_active-activate id (b ∷ attempts) a h = ground (arith, has_active-activate id attempts a, h)

scope_of-activate :
    (key : AttemptKey) (id : String) (attempts : List AdapterAttempt)
    → scope_of (find (matches_key key) (activate id attempts))
      ≡ scope_of (find (matches_key key) attempts)
unfolding find activate
scope_of-activate key id [] = refl
scope_of-activate key id (b ∷ attempts) = ground (arith, scope_of-activate key id attempts)

pub mark_active-is_established :
    (key : AttemptKey) (al : AllocatedAttempt) (s : AdapterState) (c : Calls)
    → Granted key al s c
    → ResultPost (λ _ t d. is_established key t d ≡ true) s c (mark_active al.attempt.scope_id s)
unfolding mark_active
mark_active-is_established key al s c g =
    elim (Option-cases (find (λ a. a.scope_id == al.attempt.scope_id) s.attempts)) [
      | inl e ↦ ground (arith, e)
      | inr (a, e) ↦ ground (
        arith,
        has_active-activate al.attempt.scope_id s.attempts a e,
        scope_of-activate key al.attempt.scope_id s.attempts,
        e,
        g,
      )
    ]

pub admit_clear-Granted :
    (key : AttemptKey) (turn_id tool_name : String) (s : AdapterState) (c : Calls)
    → is_quarantined s c ≡ true
    → is_clear s.recovery ≡ true
    → TransactionPost
        (Decided (Granted key) IsQuarantined)
        s
        c
        (admit_clear key turn_id tool_name s)
unfolding admit_clear new_attempt
admit_clear-Granted key turn_id tool_name s c h k =
    elim (Option-cases (find (matches_key key) s.attempts)) [
      | inl e ↦ ground (
        arith,
        find-snoc (matches_key key) s.attempts (new_attempt s key turn_id tool_name) e,
        e,
        h,
        k,
      )
      | inr (a, e) ↦ ground (arith, e, h, k)
    ]

pub quarantine : Upkeep
unfolding normalize_recovery arm_recovery complete_recovery_flush relinquish_recovery_flush
    remove_attempt admit_tracked_attempt
quarantine = record {
  Kept = IsQuarantined;
  Armed = λ s c. (is_ordered c ≡ true) × (is_clear s.recovery ≡ false);
  Flushed = λ s c. (is_ordered c ≡ true) × (needs_flush c ≡ false);
  Granted = Granted;
  Started = Granted;
  Established = λ key s c. is_established key s c ≡ true;
  armed_kept = λ s c h. ground (arith, h);
  flushed_kept = λ s c h. ground (arith, h);
  established_kept = λ key s c h. ground (arith, h);
  granted_kept = λ key al s c h. ground (arith, h);
  started_kept = λ key al s c h. ground (arith, h);
  arms = λ s c h. ground (arith, h);
  abandons = λ id worked s c h. ground (arith, h);
  removes = λ id s c h. ground (arith, h);
  closes = λ id worked s c h. ground (arith, h);
  normalizes = λ s c h. ground (arith, h);
  admits = λ key turn_id tool_name s c h.
      ground (arith, admit_clear-Granted key turn_id tool_name s c h, h);
  flushes = λ s c h. ground (arith, h);
  fails_to_flush = λ s c h. ground (arith, h);
  completes = λ generation s c h. ground (arith, h);
  relinquishes = λ generation s c h. ground (arith, h);
  starts = λ key al s c h. ground (arith, h);
  fails_to_start = λ key al s c h. ground (arith, h);
  marks = mark_active-is_established;
  reuses = λ key al s c e h.
      ground (arith, has_active-find (matches_key key) s.attempts al.attempt h.3, e, h);
}

-- Whatever hooks come in whatever order, and whatever fails, no scope is started between an
-- abandonment and the next flush that works, and while such a flush is missing a recovery is
-- outstanding.
pub run-is_quarantined :
    (evaluate : BashPolicy) (events : List CodexHookEvent) (w : World)
    → is_quarantined w.state w.calls ≡ true
    → is_quarantined (run evaluate events w).state (run evaluate events w).calls ≡ true
unfolding quarantine
run-is_quarantined evaluate events w h = run-Kept quarantine evaluate events w h
