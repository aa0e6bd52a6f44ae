-- ===== src/MutationTrace/Window/Credited.antt =====
-- The events that the lineage is built on: those since it was last reset.
use mathlib.Core.Path.{subst}
use shared_context_engineeri.Common.{
  some, none, ◌≡◌, refl, String, Bool, true, false, Option, List, [], ◌∷◌, ◌==◌, ◌!=◌,
  if◌then◌else◌, Bool-cases, inl, inr, arith,
}
use shared_context_engineeri.Common.Outcome.{Outcome}
use shared_context_engineeri.Common.Result.{Result, ok, err, ◌>>=◌}
use shared_context_engineeri.Patch.{touched_line_kind_eq, ParsedPatch}
use shared_context_engineeri.MutationTrace.Types.{ScopeId, TreeId}
use shared_context_engineeri.MutationTrace.Equality.{tree_id_eq, scope_id_eq, failure_kind_eq}
use shared_context_engineeri.MutationTrace.Lineage.{
  LineProvenance, TransitionOrigin, unobserved, LineageError,
}
use shared_context_engineeri.MutationTrace.Lineage.Files.{
  MutationLineage, apply, reset_all, from_baseline,
}
use shared_context_engineeri.MutationTrace.Lineage.History.{baseline_files-Everywhere}
use shared_context_engineeri.MutationTrace.Window.{
  MutationEventPageRow, TreeReadSource, ReplayState, Failure,
}
use shared_context_engineeri.MutationTrace.Attribution.Uncovered.{FileLine}
use shared_context_engineeri.MutationTrace.Window.Partition.{found_at}
use shared_context_engineeri.MutationTrace.Window.Replay.{
  Baseline, load_baseline, transition_origin, patch_of, reset_unless_applied, apply_or_reset,
  Replay, replay_event, replay_events, replay_tail, replay,
}
use shared_context_engineeri.MutationTrace.Window.Events.{has_event_of, is_of-transition_origin}
use shared_context_engineeri.MutationTrace.Window.Sound.{
  Free, Leaves, after_tail, bind-Leaves, apply_or_reset-Free, reset-Free, ai, lineage_of,
  found_at-Free,
}

abbrev is_ok : Outcome LineageError (Unit {0}) → Bool
is_ok (Outcome.ok _) = true
is_ok (Outcome.err _) = false
is_ok Outcome.panicked = false

-- the difference of the trees can be read, parsed and applied to the lineage
abbrev pub applies : MutationLineage → Option ParsedPatch → TransitionOrigin → Bool
applies m none origin = false
applies m (some patch) origin = is_ok (apply m patch origin).1

-- the lineage on which an event builds: a new one after a gap
abbrev pub before_event :
    TreeReadSource → List String → MutationEventPageRow → Replay → MutationLineage
before_event source paths row (m, prev_after, _) =
    if row.before_tree != prev_after
    then reset_all m (load_baseline source row.before_tree paths)
    else m

-- The credited events after an event, the newest first, from those before it: after a gap only the
-- event itself, and none if its difference cannot be read, parsed or applied.
abbrev pub credited_after :
    TreeReadSource
    → List String
    → MutationEventPageRow
    → Replay
    → List MutationEventPageRow
    → List MutationEventPageRow
unfolding reset_all load_baseline apply
credited_after source paths row (m, prev_after, state) credited =
    let patch = patch_of (source.diff_trees row.before_tree row.after_tree) in
    if applies (before_event source paths row (m, prev_after, state)) patch (transition_origin row)
    then row ∷ (if row.before_tree == prev_after then credited else [])
    else []

abbrev pub credited_next :
    (Replay → List MutationEventPageRow) → Result Failure Replay → List MutationEventPageRow
credited_next f (ok r) = f r
credited_next f (err _) = []

-- ... and after the events of a window
unfoldable pub credited_events :
    TreeReadSource
    → List String
    → List MutationEventPageRow
    → Replay
    → List MutationEventPageRow
    → List MutationEventPageRow
unfolding replay_event credited_after
credited_events source paths [] r credited = credited
credited_events source paths (row ∷ rows) r credited =
    credited_next
      (λ next. credited_events source paths rows next (credited_after source paths row r credited))
      (replay_event source paths row r)

-- A lineage that gives the scope a line only if it has a credited event.
abbrev IsCredited : ScopeId → List MutationEventPageRow → MutationLineage → Type 0
IsCredited scope_id credited m = has_event_of scope_id credited ≡ false → Free scope_id m

-- what a fallible step leaves
abbrev LeavesCredited : ScopeId → List MutationEventPageRow → Result Failure Replay → Type 0
LeavesCredited scope_id credited (ok r) = IsCredited scope_id credited r.0
LeavesCredited scope_id credited (err e) = Unit

reset_unless_applied-lost :
    (scope_id : ScopeId) (baseline : Baseline)
    (r : MutationLineage × Outcome LineageError (Unit {0}))
    → is_ok r.1 ≡ false
    → Leaves (λ (a : MutationLineage × Bool). a.0) scope_id (reset_unless_applied baseline r)
unfolding reset_unless_applied
reset_unless_applied-lost scope_id baseline (m, Outcome.ok _) n = absurd (ground (arith, n))
reset_unless_applied-lost scope_id baseline (m, Outcome.err _) n = reset-Free scope_id m baseline
reset_unless_applied-lost scope_id baseline (m, Outcome.panicked) n = tt

-- A difference that does not apply leaves no line to a scope.
apply_or_reset-lost :
    (source : TreeReadSource) (paths : List String) (scope_id : ScopeId) (m : MutationLineage)
    (patch : Option ParsedPatch) (origin : TransitionOrigin) (tree : TreeId)
    → applies m patch origin ≡ false
    → Leaves
        (λ (a : MutationLineage × Bool). a.0)
        scope_id
        (apply_or_reset source paths m patch origin tree)
unfolding apply_or_reset apply
apply_or_reset-lost source paths scope_id m none origin tree n =
    reset-Free scope_id m (load_baseline source tree paths)
apply_or_reset-lost source paths scope_id m (some patch) origin tree n =
    reset_unless_applied-lost scope_id (load_baseline source tree paths) (apply m patch origin) n

before_event-Free :
    (source : TreeReadSource) (paths : List String) (scope_id : ScopeId)
    (row : MutationEventPageRow) (r : Replay) (credited : List MutationEventPageRow)
    → IsCredited scope_id credited r.0
    → has_event_of scope_id (if row.before_tree == r.1 then credited else []) ≡ false
    → Free scope_id (before_event source paths row r)
before_event-Free source paths scope_id row (m, prev_after, state) credited h n =
    elim (Bool-cases (row.before_tree != prev_after)) [
      | inl gap ↦ rw gap (reset-Free scope_id m (load_baseline source row.before_tree paths))
      | inr joined ↦ rw joined (h (ground (arith, joined, n)))
    ]

Leaves-credited :
    (scope_id : ScopeId) (credited : List MutationEventPageRow) (r : Result Failure Replay)
    → (has_event_of scope_id credited ≡ false → Leaves lineage_of scope_id r)
    → LeavesCredited scope_id credited r
Leaves-credited scope_id credited (ok r) h = h
Leaves-credited scope_id credited (err e) h = tt

replay_event-IsCredited :
    (source : TreeReadSource) (paths : List String) (scope_id : ScopeId)
    (row : MutationEventPageRow) (r : Replay) (credited : List MutationEventPageRow)
    → IsCredited scope_id credited r.0
    → LeavesCredited scope_id
        (credited_after source paths row r credited)
        (replay_event source paths row r)
unfolding replay_event credited_after
replay_event-IsCredited source paths scope_id row (m, prev_after, state) credited h =
    let start = before_event source paths row (m, prev_after, state) in
    let patch = patch_of (source.diff_trees row.before_tree row.after_tree) in
    let origin = transition_origin row in
    Leaves-credited scope_id (credited_after source paths row (m, prev_after, state) credited)
      (replay_event source paths row (m, prev_after, state))
      λ n.
        bind-Leaves (λ (a : MutationLineage × Bool). a.0) lineage_of scope_id
          (apply_or_reset source paths start patch origin row.after_tree) _
          (elim (Bool-cases (applies start patch origin)) [
            | inl kept ↦
                apply_or_reset-Free source paths scope_id start patch origin row.after_tree
                  (ground (arith, kept, n, is_of-transition_origin scope_id row))
                  (before_event-Free source paths scope_id row (m, prev_after, state) credited h
                    (ground (arith, kept, n)))
            | inr lost ↦
                apply_or_reset-lost source paths scope_id start patch origin row.after_tree lost
          ])
          (λ a k. k)

next-IsCredited :
    (scope_id : ScopeId) (credited : List MutationEventPageRow)
    (f : Replay → List MutationEventPageRow) (g : Replay → Result Failure Replay)
    (r : Result Failure Replay)
    → LeavesCredited scope_id credited r
    → ((a : Replay) → IsCredited scope_id credited a.0 → LeavesCredited scope_id (f a) (g a))
    → LeavesCredited scope_id (credited_next f r) (r >>= g)
next-IsCredited scope_id credited f g (ok r) h k = k r h
next-IsCredited scope_id credited f g (err e) h k = tt

replay_events-IsCredited :
    (source : TreeReadSource) (paths : List String) (scope_id : ScopeId)
    (rows : List MutationEventPageRow) (r : Replay) (credited : List MutationEventPageRow)
    → IsCredited scope_id credited r.0
    → LeavesCredited scope_id
        (credited_events source paths rows r credited)
        (replay_events source paths rows r)
unfolding replay_events credited_events
replay_events-IsCredited source paths scope_id [] r credited h = h
replay_events-IsCredited source paths scope_id (row ∷ rows) r credited h =
    let after = credited_after source paths row r credited in
    next-IsCredited scope_id after (λ next. credited_events source paths rows next after)
      (replay_events source paths rows) (replay_event source paths row r)
      (replay_event-IsCredited source paths scope_id row r credited h)
      (λ a k. replay_events-IsCredited source paths scope_id rows a after k)

-- The credited events after the tail: none if the unobserved changes up to the commit cannot be read,
-- parsed or applied.
abbrev pub credited_tail :
    TreeReadSource → TreeId → List MutationEventPageRow → Replay → List MutationEventPageRow
credited_tail source commit_tree credited (m, prev_after, _) =
    if prev_after == commit_tree
    then credited
    else if applies m (patch_of (source.diff_trees prev_after commit_tree)) unobserved
    then credited
    else []

replay_tail-IsCredited :
    (source : TreeReadSource) (paths : List String) (scope_id : ScopeId) (commit_tree : TreeId)
    (credited : List MutationEventPageRow) (r : Replay)
    → IsCredited scope_id credited r.0
    → has_event_of scope_id (credited_tail source commit_tree credited r) ≡ false
    → Leaves after_tail scope_id (replay_tail source paths commit_tree r)
unfolding replay_tail
replay_tail-IsCredited source paths scope_id commit_tree credited (m, prev_after, state) h n =
    let patch = patch_of (source.diff_trees prev_after commit_tree) in
    elim (Bool-cases (prev_after != commit_tree)) [
      | inr at_commit ↦ rw at_commit (h (ground (arith, at_commit, n)))
      | inl later ↦ rw later (
          bind-Leaves (λ (a : MutationLineage × Bool). a.0) after_tail scope_id
            (apply_or_reset source paths m patch unobserved commit_tree) _
            (elim (Bool-cases (applies m patch unobserved)) [
              | inl kept ↦
                  apply_or_reset-Free source paths scope_id m patch unobserved commit_tree refl
                    (h (ground (arith, later, kept, n)))
              | inr lost ↦
                  apply_or_reset-lost source paths scope_id m patch unobserved commit_tree lost
            ])
            (λ a k. k))
    ]

tail_rest-IsCredited :
    (source : TreeReadSource) (paths : List String) (scope_id : ScopeId) (commit_tree : TreeId)
    (credited : List MutationEventPageRow) (r : Result Failure Replay)
    → LeavesCredited scope_id credited r
    → has_event_of scope_id (credited_next (credited_tail source commit_tree credited) r) ≡ false
    → Leaves after_tail scope_id (r >>= replay_tail source paths commit_tree)
tail_rest-IsCredited source paths scope_id commit_tree credited (ok r) h n =
    replay_tail-IsCredited source paths scope_id commit_tree credited r h n
tail_rest-IsCredited source paths scope_id commit_tree credited (err e) h n = tt

-- the credited events of the replay of `row ∷ rows`
unfoldable pub credited_by :
    TreeReadSource
    → List String
    → TreeId
    → MutationEventPageRow
    → List MutationEventPageRow
    → ReplayState
    → List MutationEventPageRow
unfolding credited_events replay_events from_baseline load_baseline
credited_by source paths commit_tree row rows state =
    let start : Replay =
      (from_baseline (load_baseline source row.before_tree paths), row.before_tree, state) in
    credited_next
      (credited_tail source commit_tree (credited_events source paths (row ∷ rows) start []))
      (replay_events source paths (row ∷ rows) start)

-- After the replay of a window that comes to an end a line is of a scope only if a healthy event that is exclusive to that
-- scope is credited: its difference, and that of every event after it and of the tail, was read,
-- parsed and applied, with no gap after it. A gap, or a difference that is not applied, takes away
-- the credit of all events before it.
pub replay-credited :
    (source : TreeReadSource) (paths : List String) (scope_id : ScopeId) (commit_tree : TreeId)
    (row : MutationEventPageRow) (rows : List MutationEventPageRow) (state after : ReplayState)
    (m : MutationLineage) (x : FileLine)
    → replay source paths commit_tree row rows state ≡ ok (m, after)
    → found_at m x ≡ LineProvenance.mutation_ai scope_id
    → has_event_of scope_id (credited_by source paths commit_tree row rows state) ≡ true
unfolding replay credited_by from_baseline
replay-credited source paths scope_id commit_tree row rows state after m x e found =
    elim (Bool-cases
      (has_event_of scope_id (credited_by source paths commit_tree row rows state))) [
        | inl event ↦ event
        | inr absent ↦
            let baseline = load_baseline source row.before_tree paths in
            let start : Replay = (from_baseline baseline, row.before_tree, state) in
            let begun : Free scope_id (from_baseline baseline) = λ path.
              baseline_files-Everywhere (ai scope_id) baseline path (λ e. ground (arith, e)) in
            let free : Free scope_id m = subst (Leaves after_tail scope_id) e (
              tail_rest-IsCredited source paths scope_id commit_tree
                (credited_events source paths (row ∷ rows) start [])
                (replay_events source paths (row ∷ rows) start)
                (replay_events-IsCredited source paths scope_id (row ∷ rows) start [] (λ n. begun))
                absent) in
            absurd (found_at-Free scope_id m x free found)
      ]
