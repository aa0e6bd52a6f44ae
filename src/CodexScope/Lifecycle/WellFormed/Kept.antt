-- ===== src/CodexScope/Lifecycle/WellFormed/Kept.antt =====
-- Every hook keeps the state file well-formed.
use mathlib.Core.List.{map-append}
use shared_context_engineeri.Common.{
  ℕ, ◌≡◌, refl, String, Bool, false, not, none, List, [], ◌∷◌, map, ◌==◌, ◌!=◌, ◌&&◌, string_eq,
  nat_eq, Option-cases, Bool-cases, inl, inr, arith,
}
use shared_context_engineeri.Common.Distinct.{distinct-snoc}
use shared_context_engineeri.CodexScope.{AttemptKey, option_string_eq, CodexHookEvent}
use shared_context_engineeri.CodexScope.State.{
  RecoveryState, clear, pending, flushing, pending_start, attempt_phase_eq, AdapterAttempt,
  matches_key, in_builtin_lane, AdapterState, find, any, new_attempt, with_attempt, admit_clear,
  admit_tracked_attempt, mark_active, remove_attempt, normalize_recovery, arm_recovery,
  complete_recovery_flush, relinquish_recovery_flush,
}
use shared_context_engineeri.CodexScope.World.{World}
use shared_context_engineeri.CodexScope.Lifecycle.{BashPolicy, run}
use shared_context_engineeri.CodexScope.Lifecycle.Rules.{
  Condition, Calls, TransactionPost, ResultPost,
}
use shared_context_engineeri.CodexScope.Lifecycle.Handlers.{Decided, Upkeep}
use shared_context_engineeri.CodexScope.Lifecycle.Events.{run-Kept}
use shared_context_engineeri.CodexScope.Lifecycle.WellFormed.{
  lane_eq, lane_of, attempt_key_eq, key_of, IsWellFormed, distinct-filter, count_pending-filter,
  numbered-filter, key_of-activate, lane_of-activate, count_pending-activate, numbered-activate,
  no_key, no_lane, no_pending, count_pending-snoc, numbered-snoc,
}

-- the condition, whatever the calls
abbrev pub StateKept : Condition
StateKept s c = IsWellFormed s

with_attempt-IsWellFormed :
    (key : AttemptKey) (turn_id tool_name : String) (s : AdapterState)
    → IsWellFormed s
    → find (matches_key key) s.attempts ≡ none
    → any (λ a. in_builtin_lane key.session_id turn_id a && not (matches_key key a)) s.attempts
      ≡ false
    → any (λ a. a.phase == pending_start) s.attempts ≡ false
    → IsWellFormed (with_attempt s (new_attempt s key turn_id tool_name))
unfolding new_attempt
with_attempt-IsWellFormed key turn_id tool_name s h n l p =
    let new = new_attempt s key turn_id tool_name in
    record {
      keys =
          rw (map-append key_of s.attempts (new ∷ []))
            (distinct-snoc key (map key_of s.attempts) h.keys (no_key key s.attempts n));
      lanes = rw (map-append lane_of s.attempts (new ∷ [])) (
          distinct-snoc (lane_of new) (map lane_of s.attempts) h.lanes
            (no_lane key turn_id s.attempts n l));
      one_pending = omega (arith, count_pending-snoc s.attempts new, no_pending s.attempts p);
      numbered = numbered-snoc s.next_attempt_seq s.attempts new h.numbered refl;
      generation = h.generation;
    }

pub admit_clear-Kept :
    (key : AttemptKey) (turn_id tool_name : String) (s : AdapterState) (c : Calls)
    → IsWellFormed s
    → TransactionPost (Decided (λ _. StateKept) StateKept) s c (admit_clear key turn_id tool_name s)
unfolding admit_clear
admit_clear-Kept key turn_id tool_name s c h =
    let is_pending : AdapterAttempt → Bool = λ a. a.phase == pending_start in
    let is_stale : AdapterAttempt → Bool =
      λ a. in_builtin_lane key.session_id turn_id a && not (matches_key key a) in
    elim (Option-cases (find (matches_key key) s.attempts)) [
      | inr (a, e) ↦ ground (arith, e, h)
      | inl e ↦ elim (Bool-cases (any is_stale s.attempts)) [
        | inl l ↦ ground (arith, e, l, h)
        | inr l ↦ elim (Bool-cases (any is_pending s.attempts)) [
          | inl p ↦ ground (arith, e, l, p, h)
          | inr p ↦ persisted e l p (with_attempt-IsWellFormed key turn_id tool_name s h e l p)
        ]
      ]
    ]
  where
    persisted :
        find (matches_key key) s.attempts ≡ none
        → any (λ a. in_builtin_lane key.session_id turn_id a && not (matches_key key a)) s.attempts
          ≡ false
        → any (λ a. a.phase == pending_start) s.attempts ≡ false
        → IsWellFormed (with_attempt s (new_attempt s key turn_id tool_name))
        → TransactionPost
            (Decided (λ _. StateKept) StateKept)
            s
            c
            (admit_clear key turn_id tool_name s)
    persisted e l p k = ground (arith, e, l, p, k)

pub mark_active-Kept :
    (id : String) (s : AdapterState) (c : Calls)
    → IsWellFormed s
    → ResultPost (λ _. StateKept) s c (mark_active id s)
unfolding mark_active
mark_active-Kept id s c h = elim (Option-cases (find (λ a. a.scope_id == id) s.attempts)) [
  | inl e ↦ ground (arith, e)
  | inr (a, e) ↦ ground (
    arith,
    key_of-activate id s.attempts,
    lane_of-activate id s.attempts,
    count_pending-activate id s.attempts,
    numbered-activate s.next_attempt_seq id s.attempts h.numbered,
    e,
    h.keys,
    h.lanes,
    h.one_pending,
    h.generation,
  )
]

pub remove_attempt-Kept :
    (id : String) (s : AdapterState) (c : Calls)
    → IsWellFormed s
    → TransactionPost (λ _. StateKept) s c (remove_attempt id s)
unfolding remove_attempt
remove_attempt-Kept id s c h =
    let other : AdapterAttempt → Bool = λ a. a.scope_id != id in
    ground (
      arith,
      distinct-filter key_of other s.attempts h.keys,
      distinct-filter lane_of other s.attempts h.lanes,
      count_pending-filter other s.attempts,
      numbered-filter s.next_attempt_seq other s.attempts h.numbered,
      h,
    )

completes-Kept :
    (generation : ℕ) (s : AdapterState) (c : Calls)
    → IsWellFormed s
    → TransactionPost (λ _. StateKept) s c (complete_recovery_flush generation s)
unfolding complete_recovery_flush
completes-Kept generation s c h = by_recovery s.recovery refl
  where
    by_recovery :
        (r : RecoveryState)
        → s.recovery ≡ r
        → TransactionPost (λ _. StateKept) s c (complete_recovery_flush generation s)
    by_recovery clear e = ground (arith, e, h)
    by_recovery (pending g) e = ground (arith, e, h)
    by_recovery (flushing g) e = elim (Bool-cases (g == generation)) [
      | inl t ↦ ground (arith, h, e, t)
      | inr t ↦ ground (arith, h, e, t)
    ]

relinquishes-Kept :
    (generation : ℕ) (s : AdapterState) (c : Calls)
    → IsWellFormed s
    → TransactionPost (λ _. StateKept) s c (relinquish_recovery_flush generation s)
unfolding relinquish_recovery_flush
relinquishes-Kept generation s c h = by_recovery s.recovery refl
  where
    by_recovery :
        (r : RecoveryState)
        → s.recovery ≡ r
        → TransactionPost (λ _. StateKept) s c (relinquish_recovery_flush generation s)
    by_recovery clear e = ground (arith, e, h)
    by_recovery (pending g) e = ground (arith, e, h)
    by_recovery (flushing g) e = elim (Bool-cases (g == generation)) [
      | inl t ↦ ground (arith, h, e, t)
      | inr t ↦ ground (arith, h, e, t)
    ]

upkeep : Upkeep
unfolding normalize_recovery arm_recovery complete_recovery_flush relinquish_recovery_flush
    admit_tracked_attempt
upkeep = record {
  Kept = StateKept;
  Armed = StateKept;
  Flushed = StateKept;
  Granted = λ key al. StateKept;
  Started = λ key al. StateKept;
  Established = λ key. StateKept;
  armed_kept = λ s c h. h;
  flushed_kept = λ s c h. h;
  established_kept = λ key s c h. h;
  granted_kept = λ key al s c h. h;
  started_kept = λ key al s c h. h;
  arms = λ s c h. ground (arith, h);
  abandons = λ id worked s c h. h;
  removes = remove_attempt-Kept;
  closes = λ id worked s c h. h;
  normalizes = λ s c h. ground (arith, h);
  admits = λ key turn_id tool_name s c h.
      ground (arith, admit_clear-Kept key turn_id tool_name s c h, h);
  flushes = λ s c h. h;
  fails_to_flush = λ s c h. h;
  completes = completes-Kept;
  relinquishes = relinquishes-Kept;
  starts = λ key al s c h. h;
  fails_to_start = λ key al s c h. h;
  marks = λ key al. mark_active-Kept al.attempt.scope_id;
  reuses = λ key al s c e h. h;
}

-- Whatever hooks come in whatever order, and whatever fails, the state file stays well-formed: no
-- two attempts have the same key or the same lane, at most one is not yet started, and the numbers
-- that are given next are new.
pub run-IsWellFormed_state :
    (evaluate : BashPolicy) (events : List CodexHookEvent) (w : World)
    → IsWellFormed w.state
    → IsWellFormed (run evaluate events w).state
unfolding upkeep
run-IsWellFormed_state evaluate events w h = run-Kept upkeep evaluate events w h
