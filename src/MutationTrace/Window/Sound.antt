-- ===== src/MutationTrace/Window/Sound.antt =====
-- Lines are attributed to an agent only by events of the window.
use shared_context_engineeri.Common.{
  some, none, ◌≡◌, ◌≢◌, refl, String, Bool, false, Option, List, [], ◌∷◌, ◌!=◌, if◌then◌else◌,
  Bool-cases, inl, inr, arith,
}
use shared_context_engineeri.Common.Outcome.{Outcome}
use shared_context_engineeri.Common.Result.{Result, ok, err, ◌>>=◌}
use shared_context_engineeri.Patch.{TouchedLineKind, touched_line_kind_eq, ParsedPatch}
use shared_context_engineeri.MutationTrace.Types.{ScopeId, TreeId}
use shared_context_engineeri.MutationTrace.Equality.{tree_id_eq, scope_id_eq, failure_kind_eq}
use shared_context_engineeri.MutationTrace.Lineage.{
  LineProvenance, TransitionOrigin, unobserved, added_provenance, LineageError,
}
use shared_context_engineeri.MutationTrace.Lineage.Files.{
  MutationLineage, logical_path, apply, reset_all, from_baseline,
}
use shared_context_engineeri.MutationTrace.Lineage.Files.Sound.{Everywhere, apply_files-Everywhere}
use shared_context_engineeri.MutationTrace.Lineage.History.{
  IsNot, baseline_files-Everywhere, provenance_at-Everywhere,
}
use shared_context_engineeri.MutationTrace.Window.{
  MutationEventPageRow, TreeReadSource, ReplayState, Failure,
}
use shared_context_engineeri.MutationTrace.Attribution.Uncovered.{FileLine}
use shared_context_engineeri.MutationTrace.Window.Partition.{found_at}
use shared_context_engineeri.MutationTrace.Window.Project.{line_provenance}
use shared_context_engineeri.MutationTrace.Window.Replay.{
  Baseline, load_baseline, transition_origin, patch_of, reset_unless_applied, apply_or_reset,
  Replay, replay_event, replay_events, replay_tail, replay,
}
use shared_context_engineeri.MutationTrace.Window.Events.{
  has_event_of, is_of, is_of-transition_origin,
}

abbrev pub ai : ScopeId → LineProvenance
ai scope_id = LineProvenance.mutation_ai scope_id

abbrev pub Free : ScopeId → MutationLineage → Type 0
Free scope_id = Everywhere (IsNot (ai scope_id))

pub reset-Free :
    (scope_id : ScopeId) (m : MutationLineage) (baseline : Baseline)
    → Free scope_id (reset_all m baseline)
unfolding reset_all
reset-Free scope_id m baseline path =
    baseline_files-Everywhere (ai scope_id) baseline path (λ e. ground (arith, e))

-- what a fallible step leaves
abbrev pub Leaves : {A : Type 0} → (A → MutationLineage) → ScopeId → Result Failure A → Type 0
Leaves lineage scope_id (ok a) = Free scope_id (lineage a)
Leaves lineage scope_id (err e) = Unit

pub reset_unless_applied-Free :
    (scope_id : ScopeId) (baseline : Baseline)
    (r : MutationLineage × Outcome LineageError (Unit {0}))
    → Free scope_id r.0
    → Leaves (λ (a : MutationLineage × Bool). a.0) scope_id (reset_unless_applied baseline r)
unfolding reset_unless_applied
reset_unless_applied-Free scope_id baseline (m, Outcome.ok _) h = h
reset_unless_applied-Free scope_id baseline (m, Outcome.err _) h = reset-Free scope_id m baseline
reset_unless_applied-Free scope_id baseline (m, Outcome.panicked) h = tt

added-other :
    (scope_id : ScopeId) (origin : TransitionOrigin)
    → is_of scope_id origin ≡ false
    → added_provenance origin ≢ ai scope_id
unfolding added_provenance
added-other scope_id (TransitionOrigin.mutation_ai other) n e =
    let same : LineProvenance.mutation_ai other ≡ ai scope_id = e in ground (arith, n, same)
added-other scope_id TransitionOrigin.mutation_non_ai n e = ground (arith, e)
added-other scope_id unobserved n e = ground (arith, e)

pub apply_or_reset-Free :
    (source : TreeReadSource) (paths : List String) (scope_id : ScopeId) (m : MutationLineage)
    (patch : Option ParsedPatch) (origin : TransitionOrigin) (tree : TreeId)
    → is_of scope_id origin ≡ false
    → Free scope_id m
    → Leaves
        (λ (a : MutationLineage × Bool). a.0)
        scope_id
        (apply_or_reset source paths m patch origin tree)
unfolding apply_or_reset apply
apply_or_reset-Free source paths scope_id m none origin tree n h =
    reset-Free scope_id m (load_baseline source tree paths)
apply_or_reset-Free source paths scope_id m (some patch) origin tree n h =
    reset_unless_applied-Free scope_id (load_baseline source tree paths) (apply m patch origin) (
      apply_files-Everywhere (IsNot (ai scope_id)) origin (λ content. added-other scope_id origin n)
        m patch.files h)

pub bind-Leaves :
    {A B : Type 0} (p : A → MutationLineage) (q : B → MutationLineage) (scope_id : ScopeId)
    (r : Result Failure A) (f : A → Result Failure B)
    → Leaves p scope_id r
    → ((a : A) → Free scope_id (p a) → Leaves q scope_id (f a))
    → Leaves q scope_id (r >>= f)
bind-Leaves p q scope_id (ok a) f h k = k a h
bind-Leaves p q scope_id (err e) f h k = tt

abbrev pub lineage_of : Replay → MutationLineage
lineage_of r = r.0

replay_event-Free :
    (source : TreeReadSource) (paths : List String) (scope_id : ScopeId)
    (row : MutationEventPageRow) (r : Replay)
    → is_of scope_id (transition_origin row) ≡ false
    → Free scope_id r.0
    → Leaves lineage_of scope_id (replay_event source paths row r)
unfolding replay_event
replay_event-Free source paths scope_id row (m, prev_after, state) n h =
    let gap = row.before_tree != prev_after in
    let baseline = load_baseline source row.before_tree paths in
    let start = if gap then reset_all m baseline else m in
    let started : Free scope_id start = elim (Bool-cases gap) [
      | inl t ↦ rw t (reset-Free scope_id m baseline)
      | inr t ↦ rw t h
    ] in
    let patch = patch_of (source.diff_trees row.before_tree row.after_tree) in
    bind-Leaves (λ (a : MutationLineage × Bool). a.0) lineage_of scope_id
      (apply_or_reset source paths start patch (transition_origin row) row.after_tree) _
      (apply_or_reset-Free source paths scope_id start patch (transition_origin row) row.after_tree
        n started)
      (λ a k. k)

replay_events-Free :
    (source : TreeReadSource) (paths : List String) (scope_id : ScopeId)
    (rows : List MutationEventPageRow) (r : Replay)
    → has_event_of scope_id rows ≡ false
    → Free scope_id r.0
    → Leaves lineage_of scope_id (replay_events source paths rows r)
unfolding replay_events
replay_events-Free source paths scope_id [] r n h = h
replay_events-Free source paths scope_id (row ∷ rows) r n h =
    bind-Leaves lineage_of lineage_of scope_id (replay_event source paths row r)
      (replay_events source paths rows)
      (replay_event-Free source paths scope_id row r
        (ground (arith, n, is_of-transition_origin scope_id row)) h)
      (λ a k. replay_events-Free source paths scope_id rows a (ground (arith, n)) k)

abbrev pub after_tail : MutationLineage × ReplayState → MutationLineage
after_tail r = r.0

replay_tail-Free :
    (source : TreeReadSource) (paths : List String) (scope_id : ScopeId) (commit_tree : TreeId)
    (r : Replay)
    → Free scope_id r.0
    → Leaves after_tail scope_id (replay_tail source paths commit_tree r)
unfolding replay_tail
replay_tail-Free source paths scope_id commit_tree (m, prev_after, state) h =
    elim (Bool-cases (prev_after != commit_tree)) [
      | inr at_commit ↦ rw at_commit h
      | inl later ↦ rw later (
          bind-Leaves (λ (a : MutationLineage × Bool). a.0) after_tail scope_id
            (apply_or_reset source paths m (patch_of (source.diff_trees prev_after commit_tree))
              unobserved commit_tree)
            _
            (apply_or_reset-Free source paths scope_id m
              (patch_of (source.diff_trees prev_after commit_tree)) unobserved commit_tree refl h)
            (λ a k. k))
    ]

pub replay-Free :
    (source : TreeReadSource) (paths : List String) (scope_id : ScopeId) (commit_tree : TreeId)
    (row : MutationEventPageRow) (rows : List MutationEventPageRow) (state : ReplayState)
    → has_event_of scope_id (row ∷ rows) ≡ false
    → Leaves after_tail scope_id (replay source paths commit_tree row rows state)
unfolding replay from_baseline
replay-Free source paths scope_id commit_tree row rows state n =
    let baseline = load_baseline source row.before_tree paths in
    bind-Leaves lineage_of after_tail scope_id
      (replay_events source paths (row ∷ rows) (from_baseline baseline, row.before_tree, state))
      (replay_tail source paths commit_tree)
      (replay_events-Free source paths scope_id (row ∷ rows)
        (from_baseline baseline, row.before_tree, state) n
        (λ path. baseline_files-Everywhere (ai scope_id) baseline path (λ e. ground (arith, e))))
      (replay_tail-Free source paths scope_id commit_tree)

pub found_at-Free :
    (scope_id : ScopeId) (m : MutationLineage) (x : FileLine)
    → Free scope_id m
    → found_at m x ≢ LineProvenance.mutation_ai scope_id
unfolding line_provenance
found_at-Free scope_id m x free e = elim (Bool-cases (x.1.kind != TouchedLineKind.added)) [
  | inl other ↦ ground (arith, other, e)
  | inr added ↦
      provenance_at-Everywhere (ai scope_id) m (logical_path x.0) x.1.line_number x.1.content
        (λ u. ground (arith, u)) free (ground (arith, added, e))
]
