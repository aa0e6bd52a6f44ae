-- ===== src/MutationTrace/Protocol/Evidence.antt =====
-- What one commit does: acceptance, the cursor, the revision and the evidence.
use shared_context_engineeri.Common.{
  ltb, ◌+◌, ◌≡◌, ◌↔◌, true, false, not, some, lookup, insert, lookup-insert, is_some_and, ◌<◌, ◌⊎◌,
  inl, inr, Bool-cases, refl, ap, ◌∙◌, contains, contains-set_insert, ◌==◌, ◌!=◌, ◌||◌, ◌&&◌, arith,
  if◌then◌else◌, nat_eq,
}
use shared_context_engineeri.MutationTrace.Types.{
  WorktreeId, TreeId, WorktreeState, Boundary, start, advance, close, flush, AttemptId,
  MutationEvent, ProtocolState,
}
use shared_context_engineeri.MutationTrace.Equality.{
  worktree_id_eq, scope_id_eq, tree_id_eq, mutation_event_eq, attempt_status_eq, event_key_eq,
  attempt_id_eq, scope_status_eq,
}
use shared_context_engineeri.MutationTrace.Boundary.{
  is_start, is_advance, is_close, boundary_event, is_flush, is_hook, boundary_scope,
  boundary_event_key,
}
use shared_context_engineeri.MutationTrace.Protocol.{
  u64_max, next_revision, prepare, prepared_attempt, already_underway, resolve_worktree,
}
use shared_context_engineeri.MutationTrace.Protocol.Commit.{
  CommitEvaluation, CommitOutcome, ResolvedAttempt, resolve, is_fresh, observes_scope, is_new_event,
  evaluate, mutation_event, advanced_worktree, commit,
}
use shared_context_engineeri.MutationTrace.Protocol.Commit.Cases.{
  accepted_state, rejected_state, commit-eq-outcome,
}

-- the outcome of a commit of a resolved attempt
pub commit-eq_of_resolve :
    (s : ProtocolState) (attempt : AttemptId) (r : ResolvedAttempt) (o : CommitOutcome)
    → resolve s attempt ≡ some r
    → commit s attempt ≡ some o
    → (o.evaluation ≡ evaluate r s)
      × (o.state ≡ (
          if (evaluate r s).accepted
          then accepted_state r (evaluate r s) attempt s
          else rejected_state attempt s))
commit-eq_of_resolve s attempt r o found h = ground (arith, commit-eq-outcome s attempt)

-- an attempt that was just prepared, as `commit` reads it
abbrev just_prepared : Boundary → TreeId → WorktreeId → WorktreeState → ResolvedAttempt
just_prepared b tree worktree w = record {
  planned = prepared_attempt b tree w;
  boundary = b;
  worktree = worktree;
  worktree_state = w;
  scope_id = boundary_scope b;
}

resolve-prepare :
    (s : ProtocolState) (attempt : AttemptId) (b : Boundary) (tree : TreeId) (worktree : WorktreeId)
    (w : WorktreeState)
    → already_underway (lookup attempt s.attempts) ≡ false
    → resolve_worktree s b ≡ some (worktree, w)
    → (prepare s attempt b tree
        ≡ record s { attempts = insert attempt (prepared_attempt b tree w) s.attempts })
      × (resolve (prepare s attempt b tree) attempt ≡ some (just_prepared b tree worktree w))
unfolding prepare resolve resolve_worktree
resolve-prepare s attempt b tree worktree w new found =
    ground (arith, new, found, lookup-insert attempt attempt (prepared_attempt b tree w) s.attempts)

is_new_event-eq :
    (b : Boundary) (s : ProtocolState)
    → is_new_event b s
      ≡ not (is_some_and (λ key. contains key s.processed_events) (boundary_event_key b))
unfolding is_new_event is_hook is_flush boundary_event_key boundary_scope boundary_event
is_new_event-eq (start scope event) s = refl
is_new_event-eq (advance scope event) s = refl
is_new_event-eq (close scope event) s = refl
is_new_event-eq (flush worktree) s = refl

evaluate-headroom :
    (s : ProtocolState) (b : Boundary) (tree : TreeId) (worktree : WorktreeId) (w : WorktreeState)
    → let r = just_prepared b tree worktree w in
      (evaluate r s).accepted
      ≡ (is_fresh r s && (ltb w.revision u64_max || is_flush b && w.cursor_tree == tree))
unfolding evaluate next_revision is_flush observes_scope is_start is_advance is_close boundary_scope
evaluate-headroom s (start scope event) tree worktree w = ground arith
evaluate-headroom s (advance scope event) tree worktree w = ground arith
evaluate-headroom s (close scope event) tree worktree w = ground arith
evaluate-headroom s (flush f) tree worktree w = ground arith

is_fresh-prepared :
    (s : ProtocolState) (b : Boundary) (tree : TreeId) (worktree : WorktreeId) (w : WorktreeState)
    → is_fresh (just_prepared b tree worktree w) s ≡ (
        not (contains worktree s.external_taint)
        && not (is_some_and (λ key. contains key s.processed_events) (boundary_event_key b)))
unfolding is_fresh
is_fresh-prepared s b tree worktree w = ground (arith, is_new_event-eq b s)

-- If an attempt is not underway and its boundary resolves to a worktree, and it is prepared and
-- committed at once with no panic, it is accepted exactly if the worktree is not externally tainted,
-- its event was not processed, and the revision of the worktree can advance or the boundary is a
-- flush that observes the tree at the cursor.
pub commit-prepare-accepted_iff :
    (s : ProtocolState) (attempt : AttemptId) (b : Boundary) (tree : TreeId) (worktree : WorktreeId)
    (w : WorktreeState) (o : CommitOutcome)
    → already_underway (lookup attempt s.attempts) ≡ false
    → resolve_worktree s b ≡ some (worktree, w)
    → commit (prepare s attempt b tree) attempt ≡ some o
    → (o.evaluation.accepted ≡ true) ↔ (
        (contains worktree s.external_taint ≡ false)
        × (is_some_and (λ key. contains key s.processed_events) (boundary_event_key b) ≡ false)
        × ((w.revision < u64_max) ⊎ (is_flush b ≡ true) × (w.cursor_tree ≡ tree)))
commit-prepare-accepted_iff s attempt b tree worktree w o new found h =
    let r = just_prepared b tree worktree w in
    let (prepared_eq, resolved) = resolve-prepare s attempt b tree worktree w new found in
    let after = record s { attempts = insert attempt (prepared_attempt b tree w) s.attempts } in
    let room = ltb w.revision u64_max || is_flush b && w.cursor_tree == tree in
    let accepted : o.evaluation.accepted ≡ (
        (not (contains worktree s.external_taint)
          && not (is_some_and (λ key. contains key s.processed_events) (boundary_event_key b)))
        && room) =
      ap (λ (e : CommitEvaluation). e.accepted)
        (commit-eq_of_resolve (prepare s attempt b tree) attempt r o resolved h).0
      ∙ ap (λ t. (evaluate r t).accepted) prepared_eq
      ∙ evaluate-headroom after b tree worktree w
      ∙ ap (λ f. f && room) (is_fresh-prepared after b tree worktree w) in
    (
      λ ok. (
        ground (arith, ok, accepted),
        ground (arith, ok, accepted),
        elim (Bool-cases (ltb w.revision u64_max)) [
          | inl below ↦ inl (ground (arith, below))
          | inr full ↦ inr (ground (arith, ok, accepted, full), ground (arith, ok, accepted, full))
        ],
      ),
      λ h. elim h.2 [
        | inl below ↦ ground (arith, accepted, h.0, h.1, below)
        | inr (still, same) ↦ ground (arith, accepted, h.0, h.1, still, same)
      ],
    )

-- A commit that is accepted moves the worktree as its flags say: the revision advances by exactly
-- one if the boundary is no flush or a change was observed, and stays otherwise; the cursor moves
-- to the attempt's tree exactly if the revision advances, the boundary observes its scope, and no
-- rebaseline is due. Failure state and rebaseline flag stay, and every other worktree as it was.
pub commit-worktree :
    (s : ProtocolState) (attempt : AttemptId) (r : ResolvedAttempt) (o : CommitOutcome)
    (v : WorktreeId)
    → resolve s attempt ≡ some r
    → commit s attempt ≡ some o
    → o.evaluation.accepted ≡ true
    → let w = r.worktree_state in
      let observed = o.evaluation.observes && (r.planned.before_tree != r.planned.after_tree) in
      let advances = not (is_flush r.boundary) || observed in
      let cursor =
        if o.evaluation.observes && not w.needs_rebaseline
        then r.planned.after_tree
        else w.cursor_tree in
      lookup v o.state.worktrees ≡ (
        if r.worktree == v && advances
        then some (record w { cursor_tree = cursor; revision = w.revision + 1 })
        else lookup v s.worktrees)
unfolding evaluate
commit-worktree s attempt r o v found h ok =
    let w' = advanced_worktree r (evaluate r s) (r.worktree_state.revision + 1) in
    ground
      (arith, commit-eq_of_resolve s attempt r o found h, lookup-insert r.worktree v w' s.worktrees)

-- A commit adds an event exactly if it is accepted, its boundary observes its scope, the tree has
-- changed and no rebaseline is due, and it adds no other one; all earlier events are kept.
pub commit-evidence :
    (s : ProtocolState) (attempt : AttemptId) (r : ResolvedAttempt) (o : CommitOutcome)
    (e : MutationEvent)
    → resolve s attempt ≡ some r
    → commit s attempt ≡ some o
    → let emits =
        o.evaluation.accepted
        && o.evaluation.observes
        && (r.planned.before_tree != r.planned.after_tree)
        && not r.worktree_state.needs_rebaseline in
      contains e o.state.mutation_events ≡ (
        emits && e == mutation_event r s (r.worktree_state.revision + 1)
        || contains e s.mutation_events)
unfolding evaluate
commit-evidence s attempt r o e found h = ground (
  arith,
  commit-eq_of_resolve s attempt r o found h,
  contains-set_insert (mutation_event r s (r.worktree_state.revision + 1)) e s.mutation_events,
)

-- An event that a commit emits starts at the cursor before the commit, ends at the cursor after
-- it, and has the revision of its worktree after it.
pub commit-evidence_trees :
    (s : ProtocolState) (attempt : AttemptId) (r : ResolvedAttempt) (o : CommitOutcome)
    → resolve s attempt ≡ some r
    → commit s attempt ≡ some o
    → o.evaluation.changed ≡ true
    → let w = r.worktree_state in
      let event = mutation_event r s (w.revision + 1) in
      (contains event o.state.mutation_events ≡ true)
      × (event.before_tree ≡ w.cursor_tree)
      × (lookup event.worktree_id o.state.worktrees
          ≡ some (record w { cursor_tree = event.after_tree; revision = event.revision }))
unfolding evaluate is_fresh mutation_event
commit-evidence_trees s attempt r o found h changed =
    let revision = r.worktree_state.revision + 1 in
    ground (
      arith,
      commit-eq_of_resolve s attempt r o found h,
      contains-set_insert (mutation_event r s revision) (mutation_event r s revision)
          s.mutation_events,
      lookup-insert r.worktree r.worktree (advanced_worktree r (evaluate r s) revision) s.worktrees,
    )
