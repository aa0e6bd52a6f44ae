-- ===== src/MutationTrace/Lineage/Tests.antt =====
-- The lineage of a file of two lines, whose second line a hunk replaces by two.
use shared_context_engineeri.Common.{
  ℕ, ◌≡◌, refl, String, true, Option, none, some, List, [], ◌∷◌, lookup, insert, remove, contains,
  contains_key, filter, string_eq, String-discrete,
}
use native.Mathlib.Decide.{ℕ_discrete}
use shared_context_engineeri.Common.Outcome.{ok, panicked}
use shared_context_engineeri.Common.Text.{to_text, lines_from}
use shared_context_engineeri.Patch.{
  FileChangeKind, TouchedLineKind, TouchedLine, PatchHunk, PatchFileChange,
  TouchedLineKind-discrete,
}
use shared_context_engineeri.MutationTrace.Types.{ScopeId}
use shared_context_engineeri.MutationTrace.Equality.{ScopeId-discrete}
use shared_context_engineeri.MutationTrace.Lineage.{
  LineProvenance, unknown, TransitionOrigin, ProvenanceLine, added_provenance, prefix_end,
  remove_lines, carried_from, number_lines, place_lines, replace_region, apply_one_hunk,
}
use shared_context_engineeri.MutationTrace.Lineage.Hunk.{IsApplied}
use shared_context_engineeri.MutationTrace.Lineage.Hunk.Correct.{apply_one_hunk-IsApplied}
use shared_context_engineeri.MutationTrace.Lineage.Files.{
  MutationLineage, insert_hunk, sort_hunks, apply_sorted, apply_hunks, old_lines, write_lines,
  apply_file, apply_files, apply, unknown_lines, baseline_files, from_baseline, reset_all,
  provenance_at,
}
use shared_context_engineeri.MutationTrace.Lineage.Effects.{apply_file_effect}
use shared_context_engineeri.MutationTrace.Lineage.History.{
  Transition, patched, replay, is_added, provenance_at-is_added,
}

-- all that the application of a patch computes with
machinery : Unit {0}
unfolding lookup insert remove contains contains_key filter String-discrete ℕ_discrete
    ScopeId-discrete TouchedLineKind-discrete added_provenance prefix_end remove_lines carried_from
    number_lines place_lines replace_region apply_one_hunk insert_hunk sort_hunks apply_sorted
    apply_hunks old_lines write_lines apply_file apply_files apply to_text lines_from unknown_lines
    baseline_files from_baseline reset_all provenance_at replay
machinery = tt

abbrev scope : ScopeId
scope = record { text = "codex" }

abbrev origin : TransitionOrigin
origin = TransitionOrigin.mutation_ai scope

abbrev touched : TouchedLineKind → String → ℕ → TouchedLine
touched kind content n = record {
  kind = kind;
  line_number = n;
  content = content;
  session_id = none;
}

abbrev plain : String → ProvenanceLine
plain content = record { content = content; provenance = unknown }

abbrev by_scope : String → ProvenanceLine
by_scope content = record { content = content; provenance = LineProvenance.mutation_ai scope }

abbrev two_lines : List ProvenanceLine
two_lines = plain "a" ∷ plain "b" ∷ []

abbrev three_lines : List ProvenanceLine
three_lines = plain "a" ∷ by_scope "c" ∷ by_scope "d" ∷ []

abbrev hunk : PatchHunk
hunk = record {
  old_start = 2;
  old_count = 1;
  new_start = 2;
  new_count = 2;
  model_id = none;
  lines =
      touched TouchedLineKind.removed "b" 2
      ∷ touched TouchedLineKind.added "c" 2
      ∷ touched TouchedLineKind.added "d" 3
      ∷ [];
}

hunk_applies : apply_one_hunk "f" two_lines hunk origin [] 0 ≡ ok (2, three_lines)
unfolding machinery
hunk_applies = refl

apply_one_hunk-IsApplied_example : IsApplied two_lines [] hunk origin 0 (2, three_lines)
apply_one_hunk-IsApplied_example =
    apply_one_hunk-IsApplied "f" two_lines hunk origin [] 0 (2, three_lines) hunk_applies

abbrev file : PatchFileChange
file = record { old_path = "f"; new_path = "g"; kind = FileChangeKind.renamed; hunks = hunk ∷ [] }

hunks_apply : apply_hunks "g" two_lines file origin ≡ ok three_lines
unfolding machinery
hunks_apply = refl

abbrev before : MutationLineage
before = record { files = ("f", two_lines) ∷ [] }

abbrev after : MutationLineage
after = record { files = ("g", three_lines) ∷ [] }

file_applies : apply_file before file origin ≡ ok after
unfolding machinery
file_applies = refl

apply_file_effect_example :
    (new : List ProvenanceLine) × (apply_hunks "g" two_lines file origin ≡ ok new)
    × (lookup "f" after.files ≡ none)
unfolding machinery
apply_file_effect_example = apply_file_effect before after file origin "f" refl file_applies

abbrev baseline : List (String × Option String)
baseline = ("f", some "a\nb\n") ∷ []

abbrev history : List Transition
history = patched (record { files = file ∷ [] }) origin ∷ []

second_line :
    provenance_at (replay history (from_baseline baseline)) "g" 2 "c"
    ≡ LineProvenance.mutation_ai scope
unfolding machinery
second_line = refl

provenance_at-is_added_example : is_added (LineProvenance.mutation_ai scope) history ≡ true
provenance_at-is_added_example =
    provenance_at-is_added baseline history "g" 2 "c" (LineProvenance.mutation_ai scope) (cc)
      second_line

-- The sum of the start and the count passes the largest `usize`.
abbrev far_hunk : PatchHunk
far_hunk = record hunk { old_count = 18446744073709551615 }

far_hunk_panics : apply_one_hunk "f" two_lines far_hunk origin [] 0 ≡ panicked
unfolding machinery
far_hunk_panics = refl
