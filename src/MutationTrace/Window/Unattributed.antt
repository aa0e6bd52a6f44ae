-- ===== src/MutationTrace/Window/Unattributed.antt =====
-- With no event of an agent no line is attributed to one.
use mathlib.Core.Path.{subst}
use shared_context_engineeri.Common.{
  some, none, ◌&&◌, ◌==◌, ℕ, ◌+◌, ◌≡◌, refl, ◌∙◌, ap, Bool, true, false, Option, List, [], ◌∷◌,
  ◌||◌, lookup, Bool-cases, Option-cases, inl, inr, arith,
}
use shared_context_engineeri.Common.Result.{Result, ok, err, ◌>>=◌}
use shared_context_engineeri.Patch.{TouchedLine, PatchHunk, PatchFileChange, ParsedPatch}
use shared_context_engineeri.MutationTrace.Equality.{failure_kind_eq}
use shared_context_engineeri.MutationTrace.Types.{WorktreeId, ScopeId, TreeId, healthy}
use shared_context_engineeri.MutationTrace.Lineage.{LineProvenance, unknown}
use shared_context_engineeri.MutationTrace.Lineage.Files.{MutationLineage}
use shared_context_engineeri.MutationTrace.Attribution.{
  PatchLineLocation, lines_with_provenance, hunks_with_provenance, files_with_provenance,
  patch_for_locations_with_provenance, exclude_direct_coverage,
}
use shared_context_engineeri.MutationTrace.Attribution.Uncovered.{FileLine, Entry, entries}
use shared_context_engineeri.MutationTrace.Window.{
  MutationEventPageRow, MutationEventPageSource, TreeReadSource, ReplayState,
  BoundedMutationAttribution, Failure, initial, target_logical_paths, load_event_window,
}
use shared_context_engineeri.MutationTrace.Window.Project.{Sorted, ai_with_provenance, project}
use shared_context_engineeri.MutationTrace.Window.Replay.{
  replay, finish, no_paths, resolve_bounded_mutation_attribution,
}
use shared_context_engineeri.MutationTrace.Window.Partition.{
  found_at, sorted, project_files-eq, is_ai,
}
use shared_context_engineeri.MutationTrace.Window.Events.{is_exclusive, has_event_of}
use shared_context_engineeri.MutationTrace.Window.Sound.{
  Leaves, after_tail, replay-Free, found_at-Free,
}

abbrev has_scope : Option ScopeId → Bool
has_scope none = false
has_scope (some _) = true

-- the event is healthy, and exclusive to a scope
abbrev pub is_exclusive_event : MutationEventPageRow → Bool
is_exclusive_event row =
    row.failure_kind == healthy
    && is_exclusive row.attribution_kind
    && has_scope row.attribution_scope_id

abbrev pub has_exclusive_event : List MutationEventPageRow → Bool
has_exclusive_event [] = false
has_exclusive_event (row ∷ rows) = is_exclusive_event row || has_exclusive_event rows

has_event_of-absent :
    (scope_id : ScopeId) (rows : List MutationEventPageRow)
    → has_exclusive_event rows ≡ false
    → has_event_of scope_id rows ≡ false
has_event_of-absent scope_id [] h = refl
has_event_of-absent scope_id (row ∷ rows) h = elim (Option-cases row.attribution_scope_id) [
  | inl missing ↦ ground (arith, h, missing, has_event_of-absent scope_id rows)
  | inr (other, found) ↦ ground (arith, h, found, has_event_of-absent scope_id rows)
]

-- no line is of an agent
abbrev Unattributed : MutationLineage → Type 0
Unattributed m = (x : FileLine) → is_ai (found_at m x) ≡ false

is_ai-absent :
    (p : LineProvenance)
    → ((scope_id : ScopeId) → p ≡ LineProvenance.mutation_ai scope_id → ⊥)
    → is_ai p ≡ false
is_ai-absent (LineProvenance.mutation_ai scope_id) n = absurd (n scope_id refl)
is_ai-absent LineProvenance.mutation_non_ai n = refl
is_ai-absent unknown n = refl

ai_with_provenance-skips :
    (source : MutationEventPageSource) (location : PatchLineLocation) (p : LineProvenance)
    (s : Sorted)
    → is_ai p ≡ false
    → ai_with_provenance source ((location, p) ∷ s) ≡ ai_with_provenance source s
unfolding ai_with_provenance
ai_with_provenance-skips source location (LineProvenance.mutation_ai _) s h = ground (arith, h)
ai_with_provenance-skips source location LineProvenance.mutation_non_ai s h = refl
ai_with_provenance-skips source location unknown s h = refl

ai_with_provenance-none :
    (source : MutationEventPageSource) (m : MutationLineage) (es : List Entry)
    → Unattributed m
    → ai_with_provenance source (sorted m es) ≡ []
unfolding ai_with_provenance
ai_with_provenance-none source m [] h = refl
ai_with_provenance-none source m (e ∷ es) h =
    ai_with_provenance-skips source e.0 (found_at m e.1) (sorted m es) (h e.1)
    ∙ ai_with_provenance-none source m es h

lines_with_provenance-nothing :
    (f h l : ℕ) (lines : List TouchedLine) → lines_with_provenance [] f h l lines ≡ []
unfolding lines_with_provenance lookup
lines_with_provenance-nothing f h l [] = refl
lines_with_provenance-nothing f h l (line ∷ lines) = lines_with_provenance-nothing f h (l + 1) lines

hunks_with_provenance-nothing :
    (f h : ℕ) (hunks : List PatchHunk) → hunks_with_provenance [] f h hunks ≡ []
unfolding hunks_with_provenance
hunks_with_provenance-nothing f h [] = refl
hunks_with_provenance-nothing f h (hunk ∷ hunks) = ground (
  arith,
  lines_with_provenance-nothing f h 0 hunk.lines,
  hunks_with_provenance-nothing f (h + 1) hunks,
)

files_with_provenance-nothing :
    (f : ℕ) (files : List PatchFileChange) → files_with_provenance [] f files ≡ []
unfolding files_with_provenance
files_with_provenance-nothing f [] = refl
files_with_provenance-nothing f (file ∷ files) = ground (
  arith,
  hunks_with_provenance-nothing f 0 file.hunks,
  files_with_provenance-nothing (f + 1) files,
)

project-Unattributed :
    (source : MutationEventPageSource) (target : ParsedPatch) (m : MutationLineage)
    → Unattributed m
    → (project source target m).mutation_ai_patch.files ≡ []
unfolding project patch_for_locations_with_provenance
project-Unattributed source target m h =
    ap (λ s. files_with_provenance s 0 target.files)
      (ap (ai_with_provenance source) (project_files-eq m 0 target.files)
        ∙ ai_with_provenance-none source m (entries 0 target.files) h)
    ∙ files_with_provenance-nothing 0 target.files

-- a result, if there is one, that gives no line to an agent
abbrev NoLines : Result Failure BoundedMutationAttribution → Type 0
NoLines (ok b) = b.result.mutation_ai_patch.files ≡ []
NoLines (err e) = Unit

finished-NoLines :
    (pages : MutationEventPageSource) (target : ParsedPatch)
    (r : Result Failure (MutationLineage × ReplayState))
    → ((scope_id : ScopeId) → Leaves after_tail scope_id r)
    → NoLines (r >>= λ s. ok (record { result = project pages target s.0; state = s.1 }))
finished-NoLines pages target (err e) free = tt
finished-NoLines pages target (ok (m, state)) free =
    project-Unattributed pages target m
      (λ x. is_ai-absent (found_at m x) (λ scope_id. found_at-Free scope_id m x (free scope_id)))

finish-NoLines :
    (pages : MutationEventPageSource) (trees : TreeReadSource) (target : ParsedPatch)
    (commit_tree : TreeId) (events : List MutationEventPageRow) (state : ReplayState)
    → has_exclusive_event events ≡ false
    → NoLines (finish pages trees target commit_tree (events, state))
unfolding finish
finish-NoLines pages trees target commit_tree [] state h = refl
finish-NoLines pages trees target commit_tree (row ∷ rows) state h =
    finished-NoLines pages target
      (replay trees (target_logical_paths target) commit_tree row rows state)
      (λ scope_id.
        replay-Free trees (target_logical_paths target) scope_id commit_tree row rows state
          (has_event_of-absent scope_id (row ∷ rows) h))

resolved-NoLines :
    (pages : MutationEventPageSource) (trees : TreeReadSource) (worktree : WorktreeId)
    (direct_coverage committed_patch : ParsedPatch) (commit_tree : TreeId) (ceiling : Option ℕ)
    (events : List MutationEventPageRow) (after : ReplayState)
    → load_event_window pages worktree ceiling initial ≡ ok (events, after)
    → has_exclusive_event events ≡ false
    → NoLines (
        resolve_bounded_mutation_attribution pages trees worktree direct_coverage committed_patch
          commit_tree ceiling)
unfolding resolve_bounded_mutation_attribution
resolved-NoLines pages trees worktree direct_coverage committed_patch commit_tree ceiling events
      after window h =
    elim (Option-cases (exclude_direct_coverage committed_patch direct_coverage)) [
      | inl failed ↦ rw failed tt
      | inr (target, found) ↦ elim (Bool-cases (no_paths (target_logical_paths target))) [
        | inl nothing ↦ rw (found, nothing) refl
        | inr some_paths ↦
            rw (found, some_paths, window)
              (finish-NoLines pages trees target commit_tree events after h)
      ]
    ]

-- If no event of the window that is loaded is healthy and exclusive to a scope, a result gives no
-- line of the commit to an agent, whatever the trees, their differences and the patches are.
pub resolve_bounded-unattributed :
    (pages : MutationEventPageSource) (trees : TreeReadSource) (worktree : WorktreeId)
    (direct_coverage committed_patch : ParsedPatch) (commit_tree : TreeId) (ceiling : Option ℕ)
    (events : List MutationEventPageRow) (after : ReplayState) (b : BoundedMutationAttribution)
    → load_event_window pages worktree ceiling initial ≡ ok (events, after)
    → has_exclusive_event events ≡ false
    → resolve_bounded_mutation_attribution pages trees worktree direct_coverage committed_patch
        commit_tree ceiling
      ≡ ok b
    → b.result.mutation_ai_patch.files ≡ []
resolve_bounded-unattributed pages trees worktree direct_coverage committed_patch commit_tree
      ceiling events after b window h e =
    subst NoLines e (
      resolved-NoLines pages trees worktree direct_coverage committed_patch commit_tree ceiling
        events after window h)
