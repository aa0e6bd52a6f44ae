-- ===== src/MutationTrace/Window/Divided.antt =====
-- The three patches of a projection, by what the lineage says of the added lines.
use shared_context_engineeri.Common.{
  String, ◌≡◌, refl, sym, ◌∙◌, ap, fun_ext, Bool, Option, none, some, List, [], ◌∷◌, map, filter,
  lookup, contains, ◌==◌, ◌!=◌, if◌then◌else◌, arith, Option-cases, Bool-cases, inl, inr,
}
use mathlib.Core.Option.{some-injective}
use shared_context_engineeri.Patch.{
  TouchedLineKind, touched_line_kind_eq, TouchedLine, PatchFileChange, ParsedPatch,
}
use shared_context_engineeri.MutationTrace.Lineage.{LineProvenance, unknown}
use shared_context_engineeri.MutationTrace.Lineage.Files.{
  MutationLineage, logical_path, provenance_at,
}
use shared_context_engineeri.MutationTrace.Attribution.{
  PatchLineLocation, location_eq, PatchLineProvenance, line_at,
}
use shared_context_engineeri.MutationTrace.Attribution.Selected.{located_files, lines_of_files}
use shared_context_engineeri.MutationTrace.Attribution.Filled.{
  filled_line, filled, patch_for_locations_with_provenance-filled,
}
use shared_context_engineeri.MutationTrace.Attribution.Uncovered.{
  FileLine, Entry, Finds, entries, entries-Finds, get_elem?-at, entries-locations, file_lines,
}
use shared_context_engineeri.MutationTrace.Attribution.Uncovered.Lines.{
  locations, Within, located, locations-Within,
}
use shared_context_engineeri.MutationTrace.Window.{MutationEventPageSource, ScopeProvenance}
use shared_context_engineeri.MutationTrace.Window.Project.{
  line_provenance, Sorted, provenance_of_scope, project_files, ai_with_provenance, project,
}
use shared_context_engineeri.MutationTrace.Window.Partition.{
  found_at, sorted, project_files-eq, is_non_ai, is_unknown, lines_with, project-others,
}

-- what the lineage says of an added line
abbrev pub given_kind : TouchedLineKind → LineProvenance → LineProvenance
given_kind TouchedLineKind.added provenance = provenance
given_kind TouchedLineKind.removed provenance = unknown

abbrev pub given : MutationLineage → FileLine → LineProvenance
given m x = given_kind x.1.kind (provenance_at m (logical_path x.0) x.1.line_number x.1.content)

-- the session that is known of a scope
abbrev pub session_of : Option (Option ScopeProvenance) → Option String
session_of (some (some known)) = some known.session_id
session_of (some none) = none
session_of none = none

abbrev pub ai_line :
    MutationEventPageSource → LineProvenance → TouchedLine → List TouchedLine → List TouchedLine
ai_line source (LineProvenance.mutation_ai scope_id) line rest =
    record line { session_id = session_of (source.load_scope_provenance scope_id) } ∷ rest
ai_line source LineProvenance.mutation_non_ai line rest = rest
ai_line source unknown line rest = rest

-- the lines that are given to a scope, each with the session of its scope
abbrev pub ai_lines : MutationEventPageSource → MutationLineage → List FileLine → List TouchedLine
ai_lines source m [] = []
ai_lines source m (x ∷ xs) = ai_line source (given m x) x.1 (ai_lines source m xs)

pub found_at-given : (m : MutationLineage) (x : FileLine) → found_at m x ≡ given m x
unfolding line_provenance
found_at-given m x = go x.1.kind (provenance_at m (logical_path x.0) x.1.line_number x.1.content)
  where
    go :
        (kind : TouchedLineKind) (p : LineProvenance)
        → (if kind != TouchedLineKind.added then unknown else p) ≡ given_kind kind p
    go TouchedLineKind.added p = ground arith
    go TouchedLineKind.removed p = ground arith

-- what is selected for a line
abbrev selected_for : MutationEventPageSource → LineProvenance → Option PatchLineProvenance
selected_for source (LineProvenance.mutation_ai scope_id) =
    some (provenance_of_scope (source.load_scope_provenance scope_id))
selected_for source LineProvenance.mutation_non_ai = none
selected_for source unknown = none

ai_with_provenance-cons :
    (source : MutationEventPageSource) (location place : PatchLineLocation) (p : LineProvenance)
    (s : Sorted)
    → lookup location (ai_with_provenance source ((place, p) ∷ s)) ≡ (elim (selected_for source p) [
      | none ↦ lookup location (ai_with_provenance source s)
      | some provenance ↦
          if place == location
          then some provenance
          else lookup location (ai_with_provenance source s)
    ])
unfolding ai_with_provenance lookup
ai_with_provenance-cons source location place (LineProvenance.mutation_ai scope_id) s = ground arith
ai_with_provenance-cons source location place LineProvenance.mutation_non_ai s = refl
ai_with_provenance-cons source location place unknown s = refl

lookup-selected :
    (source : MutationEventPageSource) (m : MutationLineage) (files : List PatchFileChange)
    (all : List Entry) (location : PatchLineLocation) (x : FileLine)
    → Finds files all
    → line_at files location ≡ some x
    → lookup location (ai_with_provenance source (sorted m all))
      ≡ (if contains location (locations all) then selected_for source (found_at m x) else none)
unfolding contains lookup ai_with_provenance
lookup-selected source m files [] location x found h = refl
lookup-selected source m files (e ∷ es) location x found h =
    let later = lookup-selected source m files es location x found.1 h in
    let here = ai_with_provenance-cons source location e.0 (found_at m e.1) (sorted m es) in
    elim (Bool-cases (e.0 == location)) [
      | inl same ↦
          let place : e.0 ≡ location = ground (arith, same) in
          let line : e.1 ≡ x = some-injective _ _ (sym found.0 ∙ ap (line_at files) place ∙ h) in
          let p : selected_for source (found_at m e.1) ≡ selected_for source (found_at m x) =
            ap (λ y. selected_for source (found_at m y)) line in
          elim (Option-cases (selected_for source (found_at m x))) [
            | inl n ↦ ground (arith, same, p, n, here, later)
            | inr (provenance, s) ↦ ground (arith, same, p, s, here, later)
          ]
      | inr other ↦ elim (Option-cases (selected_for source (found_at m e.1))) [
        | inl n ↦ ground (arith, other, n, here, later)
        | inr (provenance, s) ↦ ground (arith, other, s, here, later)
      ]
    ]

provenance-session :
    (known : Option (Option ScopeProvenance))
    → (provenance_of_scope known).session_id ≡ session_of known
provenance-session none = refl
provenance-session (some none) = refl
provenance-session (some (some known)) = refl

filled_line-ai_line :
    (source : MutationEventPageSource) (p : LineProvenance) (line : TouchedLine)
    (rest : List TouchedLine)
    → filled_line (selected_for source p) line rest ≡ ai_line source p line rest
filled_line-ai_line source (LineProvenance.mutation_ai scope_id) line rest =
    ap (λ s. record line { session_id = s } ∷ rest)
      (provenance-session (source.load_scope_provenance scope_id))
filled_line-ai_line source LineProvenance.mutation_non_ai line rest = refl
filled_line-ai_line source unknown line rest = refl

filled-ai_lines :
    (source : MutationEventPageSource) (m : MutationLineage) (files : List PatchFileChange)
    (all es : List Entry)
    → Finds files all
    → Finds files es
    → Within (locations all) es
    → filled (ai_with_provenance source (sorted m all)) (located es)
      ≡ ai_lines source m (map (λ (e : Entry). e.1) es)
unfolding filled
filled-ai_lines source m files all [] every found within = refl
filled-ai_lines source m files all (e ∷ es) every found within =
    let selected = ai_with_provenance source (sorted m all) in
    let rest = filled-ai_lines source m files all es every found.1 within.1 in
    ap (λ r. filled_line (lookup e.0 selected) e.1.1 r) rest
    ∙ ap (λ s. filled_line s e.1.1 (ai_lines source m (map (λ (e : Entry). e.1) es)))
        (lookup-selected source m files all e.0 e.1 every found.0
          ∙ ap (λ b. if b then selected_for source (found_at m e.1) else none) within.0
          ∙ ap (selected_for source) (found_at-given m e.1))
    ∙ filled_line-ai_line source (given m e.1) e.1.1 _

-- the lines of an agent
project-ai_lines :
    (source : MutationEventPageSource) (target : ParsedPatch) (m : MutationLineage)
    → lines_of_files (project source target m).mutation_ai_patch.files
      ≡ ai_lines source m (file_lines target.files)
unfolding project
project-ai_lines source target m =
    let all = entries 0 target.files in
    let found =
      entries-Finds target.files 0 target.files
        (λ i n file p q. get_elem?-at target.files i n file p q) in
    let (_, lines, with_files) = entries-locations 0 target.files in
    patch_for_locations_with_provenance-filled target
      (ai_with_provenance source (project_files m 0 target.files))
    ∙ ap (λ s. filled (ai_with_provenance source s) (located_files 0 target.files))
        (project_files-eq m 0 target.files)
    ∙ ap (filled (ai_with_provenance source (sorted m all))) (sym lines)
    ∙ filled-ai_lines source m target.files all all found found (locations-Within all)
    ∙ ap (ai_lines source m) with_files

-- the lines that are given such a provenance, in order
abbrev pub lines_given : (LineProvenance → Bool) → MutationLineage → ParsedPatch → List TouchedLine
lines_given p m target = map (λ x. x.1) (filter (λ x. p (given m x)) (file_lines target.files))

lines_with-given :
    (p : LineProvenance → Bool) (m : MutationLineage) (target : ParsedPatch)
    → lines_with p m target ≡ lines_given p m target
lines_with-given p m target =
    ap (λ f. map (λ x. x.1) (filter (λ x. p (f x)) (file_lines target.files)))
      (fun_ext (found_at-given m))

-- What the lineage says of the added lines divides the target: the three patches have, in order,
-- exactly the added lines that it gives to a scope, each with the session that the source knows of
-- that scope; the added lines that it gives to no agent; and all other lines.
pub project-lines :
    (source : MutationEventPageSource) (target : ParsedPatch) (m : MutationLineage)
    → (lines_of_files (project source target m).mutation_ai_patch.files
        ≡ ai_lines source m (file_lines target.files))
      × (lines_of_files (project source target m).resolved_non_ai_patch.files
          ≡ lines_given is_non_ai m target)
      × (lines_of_files (project source target m).unresolved_patch.files
          ≡ lines_given is_unknown m target)
project-lines source target m =
    let (resolved, unresolved) = project-others source target m in
    (
      project-ai_lines source target m,
      resolved ∙ lines_with-given is_non_ai m target,
      unresolved ∙ lines_with-given is_unknown m target,
    )
