-- ===== src/Patch/Intersect/Matched.antt =====
-- Where the lines of an intersection and their sessions come from.
use shared_context_engineeri.Common.{
  String, ◌≡◌, refl, sym, Bool, true, not, Option, none, some, List, [], ◌∷◌, ◌++◌, All, arith,
  ◌&&◌, Option-cases, inl, inr, nat_eq, string_eq, ◌⊎◌, Bool-cases,
}
use mathlib.Core.Path.{subst}
use shared_context_engineeri.Patch.{TouchedLine, PatchHunk, touched_line_kind_eq}
use shared_context_engineeri.Patch.Intersect.{
  AvailableTouchedLine, Available, find_available_line_match, match_line, overlapping_lines,
  or_model, matched_hunk, result_hunks, touched_lines_match_exact, touched_lines_match_historical,
}

-- same kind, content and session
abbrev pub Agrees : TouchedLine → TouchedLine → Type 0
Agrees line source =
    (source.kind ≡ line.kind)
    × (source.content ≡ line.content)
    × (source.session_id ≡ line.session_id)

abbrev pub IsFrom : Available → TouchedLine → Type 0
IsFrom [] line = ⊥
IsFrom ((candidate, _) ∷ rest) line = Agrees line candidate.line ⊎ IsFrom rest line

abbrev FoundFrom : TouchedLine → Available → Option (AvailableTouchedLine × Available) → Type 0
FoundFrom target available none = Unit
FoundFrom target available (some (found, marked)) =
    IsFrom available (record target { session_id = found.line.session_id })
    × ((line : TouchedLine) → IsFrom marked line → IsFrom available line)

find-FoundFrom :
    (matcher : TouchedLine → TouchedLine → Bool) (target : TouchedLine) (available : Available)
    → ((c : TouchedLine)
        → matcher c target ≡ true
        → (c.kind ≡ target.kind) × (c.content ≡ target.content))
    → FoundFrom target available (find_available_line_match matcher target available)
unfolding find_available_line_match
find-FoundFrom matcher target [] says = tt
find-FoundFrom matcher target ((candidate, used) ∷ rest) says =
    elim (Bool-cases (not used && matcher candidate.line target)) [
      | inl hit ↦
          let same = says candidate.line (ground arith) in
          rw hit (inl (same.0, same.1, refl), λ line h. h)
      | inr miss ↦ elim (Option-cases (find_available_line_match matcher target rest)) [
        | inl e ↦ rw (miss, e) tt
        | inr ((found, marked), e) ↦
            let ih : FoundFrom target rest (some (found, marked)) =
              subst (FoundFrom target rest) e (find-FoundFrom matcher target rest says) in
            rw (miss, e) (inr ih.0, λ line h. elim h [ inl a ↦ inl a | inr b ↦ inr (ih.1 line b) ])
      ]
    ]

match_line-FoundFrom :
    (target : TouchedLine) (available : Available)
    → FoundFrom target available (match_line target available)
unfolding match_line
match_line-FoundFrom target available =
    let exact = find-FoundFrom touched_lines_match_exact target available (λ c e. ground arith) in
    let historical =
      find-FoundFrom touched_lines_match_historical target available (λ c e. ground arith) in
    elim (Option-cases (find_available_line_match touched_lines_match_exact target available)) [
      | inl e ↦
          let shape : match_line target available
              ≡ find_available_line_match touched_lines_match_historical target available =
            ground arith in
          subst (FoundFrom target available) (sym shape) historical
      | inr (found, e) ↦
          let shape : match_line target available ≡ some found = ground arith in
          subst (FoundFrom target available) (sym shape)
            (subst (FoundFrom target available) e exact)
    ]

All-weaken :
    (P Q : TouchedLine → Type 0) (lines : List TouchedLine)
    → ((line : TouchedLine) → P line → Q line)
    → All P lines
    → All Q lines
All-weaken P Q [] f h = tt
All-weaken P Q (line ∷ lines) f h = (f line h.0, All-weaken P Q lines f h.1)

abbrev AllFrom : Available → List TouchedLine × (Option String × Available) → Type 0
AllFrom available r =
    All (IsFrom available) r.0 × ((line : TouchedLine) → IsFrom r.1.1 line → IsFrom available line)

-- Every line that a hunk keeps has the kind, the content and the session of an available line, and
-- a line that is available afterwards was available before.
pub overlapping_lines-IsFrom :
    (lines : List TouchedLine) (model : Option String) (available : Available)
    → let r = overlapping_lines lines model available in
      All (IsFrom available) r.0
      × ((line : TouchedLine) → IsFrom r.1.1 line → IsFrom available line)
unfolding overlapping_lines
overlapping_lines-IsFrom [] model available = (tt, λ line h. h)
overlapping_lines-IsFrom (line ∷ lines) model available =
    elim (Option-cases (match_line line available)) [
      | inl e ↦
          let shape : overlapping_lines (line ∷ lines) model available
              ≡ overlapping_lines lines model available =
            ground arith in
          subst (AllFrom available) (sym shape) (overlapping_lines-IsFrom lines model available)
      | inr ((found, marked), e) ↦
          let here : FoundFrom line available (some (found, marked)) =
            subst (FoundFrom line available) e (match_line-FoundFrom line available) in
          let later = overlapping_lines lines (or_model model found.model_id) marked in
          let rest : AllFrom marked later =
            overlapping_lines-IsFrom lines (or_model model found.model_id) marked in
          let shape : overlapping_lines (line ∷ lines) model available
              ≡ (record line { session_id = found.line.session_id } ∷ later.0, later.1) =
            ground arith in
          subst (AllFrom available) (sym shape) (
            (here.0, All-weaken (IsFrom marked) (IsFrom available) _ here.1 rest.0),
            λ l h. here.1 l (rest.1 l h),
          )
    ]

abbrev pub HunksFrom : Available → List PatchHunk → Type 0
HunksFrom available [] = Unit
HunksFrom available (hunk ∷ hunks) = All (IsFrom available) hunk.lines × HunksFrom available hunks

HunksFrom-weaken :
    (before after : Available) (hunks : List PatchHunk)
    → ((line : TouchedLine) → IsFrom after line → IsFrom before line)
    → HunksFrom after hunks
    → HunksFrom before hunks
HunksFrom-weaken before after [] f h = tt
HunksFrom-weaken before after (hunk ∷ hunks) f h = (
  All-weaken (IsFrom after) (IsFrom before) hunk.lines f h.0,
  HunksFrom-weaken before after hunks f h.1,
)

HunksFrom-matched_hunk :
    (available : Available) (hunk : PatchHunk) (lines : List TouchedLine) (model : Option String)
    (hunks : List PatchHunk)
    → All (IsFrom available) lines
    → HunksFrom available hunks
    → HunksFrom available (matched_hunk hunk lines model ++ hunks)
HunksFrom-matched_hunk available hunk [] model hunks h k = k
HunksFrom-matched_hunk available hunk (line ∷ lines) model hunks h k = (h, k)

-- Every line of the hunks of an intersection has the kind, the content and the session of a line
-- of the constructed file that is available.
pub result_hunks-HunksFrom :
    (hunks : List PatchHunk) (available : Available)
    → HunksFrom available (result_hunks hunks available)
unfolding result_hunks
result_hunks-HunksFrom [] available = tt
result_hunks-HunksFrom (hunk ∷ hunks) available =
    let matched = overlapping_lines hunk.lines none available in
    let found : AllFrom available matched = overlapping_lines-IsFrom hunk.lines none available in
    HunksFrom-matched_hunk available hunk matched.0 matched.1.0 (result_hunks hunks matched.1.1)
      found.0
      (HunksFrom-weaken available matched.1.1 (result_hunks hunks matched.1.1) found.1
        (result_hunks-HunksFrom hunks matched.1.1))
