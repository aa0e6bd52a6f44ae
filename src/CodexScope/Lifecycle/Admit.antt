-- ===== src/CodexScope/Lifecycle/Admit.antt =====
-- A condition that every transaction and every call keeps is kept by the hook before a tool, and
-- what it establishes holds when the tool may run.
use shared_context_engineeri.Common.{
  ℕ, String, Bool, true, false, ◌∷◌, length, ◌==◌, ◌&&◌, Bool-cases, inl, inr,
}
use shared_context_engineeri.Common.Exec.{pure, ◌>>=◌}
use shared_context_engineeri.Common.Exec.Triple.{Triple, Triple-pure, Triple-bind}
use shared_context_engineeri.CodexScope.{AttemptKey}
use shared_context_engineeri.CodexScope.State.{
  active, attempt_phase_eq, AdapterState, AllocatedAttempt, AdmitDecision, admitted,
  recovery_blocked, uncertain_attempt_blocked, stale_predecessor_blocked, flush_claimed,
  RecoveryFlushCompletion, cleared, superseded, admit_tracked_attempt, mark_active,
  normalize_recovery, complete_recovery_flush, relinquish_recovery_flush,
}
use shared_context_engineeri.CodexScope.World.{
  start, flush, attempt_io, with_boundary_lock, World, with_locked_state,
}
use shared_context_engineeri.CodexScope.Lifecycle.{
  sweep_stale_lane_predecessors, Admission, granted, denied, after_readmission, readmit_after_flush,
  after_completion, after_flush, after_decision, admit_or_recover, establish_start, establish,
}
use shared_context_engineeri.CodexScope.Lifecycle.Rules.{
  Condition, On, Calls, io-Triple, locked-Triple, checked-Triple, seam-Triple, seam_or_fail-Triple,
  boundary-Triple,
}
use shared_context_engineeri.CodexScope.Lifecycle.Handlers.{Decided, Upkeep, sweep-Keeps}

-- what an admission leaves
abbrev pub Outcome : (AllocatedAttempt → Condition) → Condition → Admission → Condition
Outcome G K (granted allocated) = G allocated
Outcome G K denied = K

module _ (u : Upkeep) (key : AttemptKey) (turn_id tool_name : String) where
  abbrev Admitted : Admission → World → Type 0
  Admitted a = On (Outcome (u.Granted key) u.Kept a)

  same : (s : AdapterState) (c : Calls) → u.Kept s c → u.Kept s c
  same s c h = h

  relinquishes :
      (generation : ℕ)
      → Triple
          (On u.Kept)
          (with_locked_state (relinquish_recovery_flush generation) >>= λ _. pure denied)
          Admitted
          (On u.Kept)
  relinquishes generation =
      Triple-bind {Q = λ _. On u.Kept}
        (locked-Triple u.Kept (λ _. u.Kept) u.Kept (relinquish_recovery_flush generation) same
          (u.relinquishes generation))
        (λ _. Triple-pure denied (λ w h. h))

  admits :
      Triple
        (On u.Kept)
        (with_locked_state (admit_tracked_attempt key turn_id tool_name))
        (λ d. On (Decided (u.Granted key) u.Kept d))
        (On u.Kept)
  admits =
      locked-Triple u.Kept (Decided (u.Granted key) u.Kept) u.Kept
        (admit_tracked_attempt key turn_id tool_name) same (u.admits key turn_id tool_name)

  readmitted :
      (d : AdmitDecision)
      → Triple (On (Decided (u.Granted key) u.Kept d)) (after_readmission d) Admitted (On u.Kept)
  unfolding after_readmission
  readmitted (admitted allocated) = Triple-pure (granted allocated) (λ w h. h)
  readmitted (flush_claimed generation) = relinquishes generation
  readmitted recovery_blocked = Triple-pure denied (λ w h. h)
  readmitted uncertain_attempt_blocked = Triple-pure denied (λ w h. h)
  readmitted stale_predecessor_blocked = Triple-pure denied (λ w h. h)

  readmits : Triple (On u.Kept) (readmit_after_flush key turn_id tool_name) Admitted (On u.Kept)
  unfolding readmit_after_flush
  readmits = Triple-bind {Q = λ d. On (Decided (u.Granted key) u.Kept d)} admits readmitted

  completed :
      (d : RecoveryFlushCompletion)
      → Triple (On u.Kept) (after_completion key turn_id tool_name d) Admitted (On u.Kept)
  unfolding after_completion
  completed cleared = readmits
  completed superseded = Triple-pure denied (λ w h. h)

  abbrev AfterFlush : Bool → Condition
  AfterFlush true = u.Flushed
  AfterFlush false = u.Kept

  flushed :
      (generation : ℕ) (worked : Bool)
      → Triple
          (On (AfterFlush worked))
          (after_flush key turn_id tool_name generation worked)
          Admitted
          (On u.Kept)
  unfolding after_flush
  flushed generation true =
      Triple-bind {Q = λ _. On u.Kept}
        (locked-Triple u.Flushed (λ _. u.Kept) u.Kept (complete_recovery_flush generation)
          u.flushed_kept (u.completes generation))
        completed
  flushed generation false = relinquishes generation

  called :
      (s : AdapterState) (c : Calls) (worked : Bool)
      → u.Kept s c
      → AfterFlush worked s ((flush, worked) ∷ c)
  called s c true h = u.flushes s c h
  called s c false h = u.fails_to_flush s c h

  decided :
      (d : AdmitDecision)
      → Triple
          (On (Decided (u.Granted key) u.Kept d))
          (after_decision key turn_id tool_name d)
          Admitted
          (On u.Kept)
  unfolding after_decision
  decided (admitted allocated) = Triple-pure (granted allocated) (λ w h. h)
  decided (flush_claimed generation) =
      Triple-bind {Q = λ worked. On (AfterFlush worked)}
        (seam-Triple u.Kept AfterFlush u.Kept flush called) (flushed generation)
  decided recovery_blocked = Triple-pure denied (λ w h. h)
  decided uncertain_attempt_blocked = Triple-pure denied (λ w h. h)
  decided stale_predecessor_blocked = Triple-pure denied (λ w h. h)

  admit_or_recover-Triple :
      Triple (On u.Kept) (admit_or_recover key turn_id tool_name) Admitted (On u.Kept)
  unfolding admit_or_recover
  admit_or_recover-Triple =
      Triple-bind {Q = λ d. On (Decided (u.Granted key) u.Kept d)} admits decided

  establish_start-Triple :
      (al : AllocatedAttempt)
      → Triple
          (On (u.Granted key al))
          (establish_start al)
          (λ _. On (u.Established key))
          (On u.Kept)
  unfolding establish_start
  establish_start-Triple al = elim (Bool-cases (al.reused && al.attempt.phase == active)) [
    | inl e ↦ rw e (record { at = λ w h. u.reuses key al w.state w.calls e h })
    | inr e ↦ rw e (
        Triple-bind {Q = λ _. On (u.Started key al)}
          (seam_or_fail-Triple (u.Granted key al) (u.Started key al) u.Kept
            (start al.attempt.scope_id) (u.starts key al) (u.fails_to_start key al))
          (λ _.
            checked-Triple (u.Started key al) (λ _. u.Established key) u.Kept
              (mark_active al.attempt.scope_id) (u.started_kept key al) (u.marks key al)))
  ]

  -- what holds when the hook is done: the tool may run, or not
  abbrev Done : Admission → World → Type 0
  Done a = On (Outcome (λ _. u.Established key) u.Kept a)

  establish-Triple : (a : Admission) → Triple (Admitted a) (establish a) Done (On u.Kept)
  unfolding establish
  establish-Triple (granted al) =
      Triple-bind {Q = λ _. On (u.Established key)} (establish_start-Triple al)
        (λ _. Triple-pure (granted al) (λ w h. h))
  establish-Triple denied = Triple-pure denied (λ w h. h)

  pub pre_tool_use-Triple :
      Triple
        (On u.Kept)
        (attempt_io >>= λ _. with_boundary_lock (
          with_locked_state normalize_recovery >>= λ _.
          (λ w. sweep_stale_lane_predecessors (length w.state.attempts) key turn_id w) >>= λ _.
          admit_or_recover key turn_id tool_name >>= establish))
        Done
        (On u.Kept)
  pre_tool_use-Triple = Triple-bind {Q = λ _. On u.Kept} (io-Triple u.Kept u.Kept same) (λ _.
      boundary-Triple u.Kept (Outcome (λ _. u.Established key) u.Kept) u.Kept _ same (
        Triple-bind {Q = λ _. On u.Kept}
          (locked-Triple u.Kept (λ _. u.Kept) u.Kept normalize_recovery same u.normalizes)
          (λ _.
            Triple-bind {Q = λ _. On u.Kept}
              (record { at = λ w h. (sweep-Keeps u (length w.state.attempts) key turn_id).at w h })
              (λ _. Triple-bind {Q = Admitted} admit_or_recover-Triple establish-Triple))))
