-- ===== src/MutationTrace/Window/Tests.antt =====
-- A commit of two added lines, of which an event of an agent added the first; the second was added
-- in the unobserved tail.
use mathlib.Core.List.{reverse}
use mathlib.Core.Path.{subst}
use native.Mathlib.Decide.{ℕ_discrete}
use shared_context_engineeri.Common.{
  filter, ℕ, zero, suc, ◌≡◌, ◌≤◌, refl, String, true, Option, none, some, List, [], ◌∷◌, length,
  lookup, insert, remove, contains_key, contains, String-discrete, arith,
}
use shared_context_engineeri.Common.Result.{ok}
use shared_context_engineeri.Patch.{
  FileChangeKind, TouchedLineKind, TouchedLineKind-discrete, TouchedLine, PatchFileChange,
  ParsedPatch,
}
use shared_context_engineeri.MutationTrace.Types.{WorktreeId, ScopeId, TreeId, healthy}
use shared_context_engineeri.MutationTrace.Equality.{TreeId-discrete, FailureKind-discrete}
use shared_context_engineeri.MutationTrace.Attribution.{PatchLineLocation-discrete}
use shared_context_engineeri.Common.Text.{is_whitespace}
use shared_context_engineeri.MutationTrace.Lineage.{
  prefix_end, replace_region, remove_lines, number_lines, place_lines, carried_from, LineProvenance,
}
use shared_context_engineeri.MutationTrace.Lineage.Files.{MutationLineage}
use shared_context_engineeri.MutationTrace.Attribution.Selected.{lines_of_files}
use shared_context_engineeri.MutationTrace.Window.{
  target_logical_paths, MutationEventPageRow, ineligible_unscoped, ai_exclusive,
  MutationEventPageSource, TreeReadSource, ReplayState, BoundedMutationAttribution,
  event_reconstruction, initial, load_pages, first_cursor, load_event_window,
}
use shared_context_engineeri.MutationTrace.Window.Project.{line_provenance, project}
use shared_context_engineeri.MutationTrace.Window.Replay.{
  replay, resolve_bounded_mutation_attribution,
}
use shared_context_engineeri.MutationTrace.Window.Events.{has_event_of}
use shared_context_engineeri.MutationTrace.Window.Credited.{credited_by, replay-credited}
use shared_context_engineeri.MutationTrace.Window.Unattributed.{resolve_bounded-unattributed}
use shared_context_engineeri.MutationTrace.Window.Pages.{Descends, Paged, load_event_window-bounds}
use shared_context_engineeri.MutationTrace.Window.Divided.{project-lines}

machinery : Unit {0}
unfolding contains lookup insert remove contains_key String-discrete ℕ_discrete load_pages
    load_event_window replay line_provenance TouchedLineKind-discrete target_logical_paths
    PatchLineLocation-discrete TreeId-discrete FailureKind-discrete
    resolve_bounded_mutation_attribution
machinery = tt

abbrev tree : String → TreeId
tree name = record { text = name }

abbrev worktree : WorktreeId
worktree = record { text = "w" }

abbrev scope : ScopeId
scope = record { text = "scope" }

abbrev row : MutationEventPageRow
row = record {
  revision = 7;
  before_tree = tree "a";
  after_tree = tree "b";
  failure_kind = healthy;
  attribution_kind = ai_exclusive;
  attribution_scope_id = some scope;
}

-- one event, of revision 7
abbrev page : Option ℕ → ℕ → Option (List MutationEventPageRow)
page none zero = some []
page none (suc want) = some (row ∷ [])
page (some _) want = some []

abbrev pages : MutationEventPageSource
pages = record { load_mutation_event_page = λ w. page; load_scope_provenance = λ s. none }

page-Paged : Paged pages worktree
page-Paged none zero rows e =
    let same : [] ≡ rows = ground (arith, e) in
    subst (λ r. (length r ≤ 0) × Descends none r) same (omega arith, tt)
page-Paged none (suc want) rows e =
    let same : row ∷ [] ≡ rows = ground (arith, e) in
    subst (λ r. (length r ≤ suc want) × Descends none r) same (omega arith, tt)
page-Paged (some c) want rows e =
    let same : [] ≡ rows = ground (arith, e) in
    subst (λ r. (length r ≤ want) × Descends (some c) r) same (omega arith, tt)

load_event_window-bounds_example :
    (events : List MutationEventPageRow) × (after : ReplayState) × (load_event_window pages worktree
        none initial
      ≡ ok (events, after))
    × (length (reverse events) ≤ 128)
    × Descends (first_cursor none) (reverse events)
load_event_window-bounds_example = load_event_window-bounds pages worktree none initial page-Paged

abbrev line : String → ℕ → TouchedLine
line content n = record {
  kind = TouchedLineKind.added;
  line_number = n;
  content = content;
  session_id = none;
}

abbrev target : ParsedPatch
target = record {
  files =
      record {
        old_path = "";
        new_path = "f";
        kind = FileChangeKind.added;
        hunks =
            record {
              old_start = 0;
              old_count = 0;
              new_start = 1;
              new_count = 2;
              model_id = none;
              lines = line "x" 1 ∷ line "y" 2 ∷ [];
            }
            ∷ [];
      }
      ∷ [];
}

abbrev lineage : MutationLineage
lineage = record {
  files =
      (
        "f",
        record { content = "x"; provenance = LineProvenance.mutation_ai scope }
            ∷ record { content = "y"; provenance = LineProvenance.mutation_non_ai }
            ∷ [],
      )
      ∷ [];
}

abbrev known_pages : MutationEventPageSource
known_pages = record pages {
  load_scope_provenance =
      λ s. some (some (record { scope_id = s; session_id = "session"; model_id = none }));
}

project-lines_example :
    (lines_of_files (project known_pages target lineage).mutation_ai_patch.files
      ≡ record (line "x" 1) { session_id = some "session" } ∷ [])
    × (lines_of_files (project known_pages target lineage).resolved_non_ai_patch.files
        ≡ line "y" 2 ∷ [])
    × (lines_of_files (project known_pages target lineage).unresolved_patch.files ≡ [])
unfolding machinery filter
project-lines_example = project-lines known_pages target lineage

-- the agent's event adds the line "x"
abbrev diff : TreeId → TreeId → Option String
diff before after =
    some "diff --git a/f b/f\nnew file mode 100644\n--- /dev/null\n+++ b/f\n@@ -0,0 +1 @@\n+x\n"

abbrev trees : TreeReadSource
trees = record { diff_trees = diff; file_at_tree = λ t p. some none }

abbrev after_event : MutationLineage
after_event = record {
  files = ("f", record { content = "x"; provenance = LineProvenance.mutation_ai scope } ∷ []) ∷ [];
}

abbrev replayed : ReplayState
replayed = record initial { inspected_events = 1; reconstructed_events = 1 }

replays : replay trees ("f" ∷ []) (tree "b") row [] initial ≡ ok (after_event, replayed)
unfolding machinery is_whitespace prefix_end replace_region remove_lines number_lines place_lines
    carried_from
replays = refl

abbrev file : PatchFileChange
file = record { old_path = ""; new_path = "f"; kind = FileChangeKind.added; hunks = [] }

replay-credited_example :
    has_event_of scope (credited_by trees ("f" ∷ []) (tree "b") row [] initial) ≡ true
unfolding machinery
replay-credited_example =
    replay-credited trees ("f" ∷ []) scope (tree "b") row [] initial replayed after_event
      (file, line "x" 1) replays refl

-- the same without an agent, and with differences that cannot be read
abbrev other : MutationEventPageRow
other = record row { attribution_kind = ineligible_unscoped }

abbrev other_pages : MutationEventPageSource
other_pages = record {
  load_mutation_event_page = λ w cursor want. some (other ∷ []);
  load_scope_provenance = λ s. none;
}

abbrev unreadable : TreeReadSource
unreadable = record { diff_trees = λ before after. none; file_at_tree = λ t p. none }

abbrev loaded : ReplayState
loaded = record initial { loaded_pages = 1; loaded_rows = 1 }

abbrev outcome : BoundedMutationAttribution
outcome = record {
  result = record {
    mutation_ai_patch = record { files = [] };
    resolved_non_ai_patch = record { files = [] };
    unresolved_patch = target;
  };
  state = record loaded {
    inspected_events = 1;
    gap_resets = 1;
    barrier = some event_reconstruction;
  };
}

resolves :
    resolve_bounded_mutation_attribution other_pages unreadable worktree
      (record { files = [] })
      target
      (tree "b")
      none
    ≡ ok outcome
unfolding machinery
resolves = refl

resolve_bounded-unattributed_example : outcome.result.mutation_ai_patch.files ≡ []
unfolding machinery
resolve_bounded-unattributed_example =
    resolve_bounded-unattributed other_pages unreadable worktree (record { files = [] }) target
      (tree "b") none (other ∷ []) loaded outcome refl refl resolves
