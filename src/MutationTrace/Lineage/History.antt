-- ===== src/MutationTrace/Lineage/History.antt =====
-- The lineage over a whole history of transitions and resets.
use shared_context_engineeri.Common.{
  ℕ, ◌-◌, ◌≡◌, ◌≢◌, sym, inl, inr, String, Bool, true, false, Option, none, some, List, [], ◌∷◌,
  map, lookup, All, All-get_elem?, get_elem?, Option-cases, Bool-cases, Eq, ◌==◌, ◌||◌, string_eq,
  arith,
}
use shared_context_engineeri.Common.Text.{lines_from}
use shared_context_engineeri.Patch.{ParsedPatch}
use shared_context_engineeri.MutationTrace.Equality.{ScopeId-discrete}
use shared_context_engineeri.MutationTrace.Lineage.{
  LineProvenance, unknown, TransitionOrigin, added_provenance, ProvenanceLine,
}
use shared_context_engineeri.MutationTrace.Lineage.Files.{
  MutationLineage, apply, baseline_files, from_baseline, reset_all, provenance_at,
}
use shared_context_engineeri.MutationTrace.Lineage.Files.Sound.{
  AllOf, Everywhere, apply_files-Everywhere,
}

pub LineProvenance-discrete : Discrete LineProvenance
LineProvenance-discrete = hlevel ScopeId-discrete

instance abbrev pub line_provenance_eq : Eq LineProvenance
line_provenance_eq = record { dec = LineProvenance-discrete }

-- a call of `apply`, whose error the caller survives, or of `reset_all`
pub data Transition : Type 0 where
  patched : ParsedPatch → TransitionOrigin → Transition
  reset : List (String × Option String) → Transition

unfoldable pub replay : List Transition → MutationLineage → MutationLineage
unfolding apply reset_all
replay [] m = m
replay (patched patch origin ∷ rest) m = replay rest (apply m patch origin).0
replay (reset files ∷ rest) m = replay rest (reset_all m files)

-- some transition adds lines with the provenance
abbrev pub is_added : LineProvenance → List Transition → Bool
is_added p [] = false
is_added p (patched patch origin ∷ rest) = added_provenance origin == p || is_added p rest
is_added p (reset files ∷ rest) = is_added p rest

abbrev pub IsNot : LineProvenance → ProvenanceLine → Type 0
IsNot p line = line.provenance ≢ p

unknown_lines-All :
    (p : LineProvenance) (lines : List String)
    → p ≢ unknown
    → All (IsNot p) (map (λ line. record { content = line; provenance = unknown }) lines)
unknown_lines-All p [] n = tt
unknown_lines-All p (line ∷ lines) n = (λ e. n (sym e), unknown_lines-All p lines n)

pub baseline_files-Everywhere :
    (p : LineProvenance) (files : List (String × Option String)) (path : String)
    → p ≢ unknown
    → AllOf (IsNot p) (lookup path (baseline_files files))
unfolding baseline_files lookup
baseline_files-Everywhere p [] path n = tt
baseline_files-Everywhere p ((name, none) ∷ files) path n =
    ground (arith, baseline_files-Everywhere p files path n)
baseline_files-Everywhere p ((name, some text) ∷ files) path n =
    ground
      (arith, unknown_lines-All p (lines_from [] text) n, baseline_files-Everywhere p files path n)

replay-Everywhere :
    (p : LineProvenance) (transitions : List Transition) (m : MutationLineage)
    → p ≢ unknown
    → is_added p transitions ≡ false
    → Everywhere (IsNot p) m
    → Everywhere (IsNot p) (replay transitions m)
unfolding replay apply reset_all
replay-Everywhere p [] m n none_added h = h
replay-Everywhere p (patched patch origin ∷ rest) m n none_added h =
    let other : added_provenance origin ≢ p = ground arith in
    replay-Everywhere p rest (apply m patch origin).0 n (ground arith)
      (apply_files-Everywhere (IsNot p) origin (λ content. other) m patch.files h)
replay-Everywhere p (reset files ∷ rest) m n none_added h =
    replay-Everywhere p rest (reset_all m files) n none_added
      (λ path. baseline_files-Everywhere p files path n)

pub provenance_at-Everywhere :
    (p : LineProvenance) (m : MutationLineage) (path : String) (line_number : ℕ) (content : String)
    → p ≢ unknown
    → Everywhere (IsNot p) m
    → provenance_at m path line_number content ≢ p
unfolding provenance_at
provenance_at-Everywhere p m path line_number content n h e =
    elim (Option-cases (lookup path m.files)) [
      | inl missing ↦ ground arith
      | inr (lines, found) ↦ elim (Option-cases (get_elem? lines (line_number - 1))) [
        | inl out ↦ ground arith
        | inr (line, at) ↦
            let all : All (IsNot p) lines = ground (arith, h path) in
            let other : line.provenance ≢ p =
              All-get_elem? (IsNot p) lines (line_number - 1) all at in
            ground arith
      ]
    ]

-- From a baseline, through any patches (also those that fail) and resets: a line is reported with
-- a provenance other than unknown only if a patch was applied whose transition has that
-- provenance. So a scope is named only by a transition of its own.
pub provenance_at-is_added :
    (files : List (String × Option String)) (transitions : List Transition) (path : String)
    (line_number : ℕ) (content : String) (p : LineProvenance)
    → p ≢ unknown
    → provenance_at (replay transitions (from_baseline files)) path line_number content ≡ p
    → is_added p transitions ≡ true
unfolding from_baseline
provenance_at-is_added files transitions path line_number content p n e =
    elim (Bool-cases (is_added p transitions)) [
      | inl added ↦ added
      | inr none_added ↦ absurd (
          provenance_at-Everywhere p (replay transitions (from_baseline files)) path line_number
            content n
            (replay-Everywhere p transitions (from_baseline files) n none_added
              (λ v. baseline_files-Everywhere p files v n))
            e)
    ]
