-- ===== src/MutationTrace/Attribution/Model.antt =====
-- The model that a restricted hunk is attributed to.
use shared_context_engineeri.Common.{
  ℕ, ◌≡◌, ◌↔◌, String, Bool, true, false, some, [], ◌∷◌, ◌==◌, ◌!=◌, ◌||◌, ◌&&◌, nat_eq, string_eq,
  arith, is_some_and, Option-cases, inl, inr,
}
use shared_context_engineeri.MutationTrace.Attribution.{Provenances, agreed_from, agreed_model}

-- some entry is of the hunk
abbrev pub has_entry : ℕ → ℕ → Provenances → Bool
has_entry f h [] = false
has_entry f h ((location, _) ∷ selected) =
    location.file_index == f && location.hunk_index == h || has_entry f h selected

-- every entry of the hunk has the model
abbrev pub all_have : String → ℕ → ℕ → Provenances → Bool
all_have model f h [] = true
all_have model f h ((location, provenance) ∷ selected) =
    (location.file_index != f
      || location.hunk_index != h
      || is_some_and (λ m. m == model) provenance.model_id)
    && all_have model f h selected

agreed_from-some :
    (selected : Provenances) (f h : ℕ) (existing model : String)
    → (agreed_from (some existing) selected f h ≡ some model)
      ↔ ((existing ≡ model) × (all_have model f h selected ≡ true))
unfolding agreed_from
agreed_from-some [] f h existing model = (ground arith, ground arith)
agreed_from-some ((location, provenance) ∷ selected) f h existing model = (
  λ e. ground (arith, (agreed_from-some selected f h existing model).0),
  λ p. ground (arith, (agreed_from-some selected f h existing model).1),
)

-- A hunk's model is the one that all of its selected lines have: the result is a model exactly if
-- some selected line is of the hunk and every one that is has that model.
pub agreed_model-some_iff :
    (selected : Provenances) (f h : ℕ) (model : String)
    → (agreed_model selected f h ≡ some model)
      ↔ ((has_entry f h selected ≡ true) × (all_have model f h selected ≡ true))
unfolding agreed_model agreed_from
agreed_model-some_iff [] f h model = (ground arith, ground arith)
agreed_model-some_iff ((location, provenance) ∷ selected) f h model =
    elim (Option-cases provenance.model_id) [
      | inl missing ↦ (
        λ e. ground (arith, (agreed_model-some_iff selected f h model).0),
        λ p. ground (arith, (agreed_model-some_iff selected f h model).1),
      )
      | inr (c, found) ↦ (
        λ e. ground (
          arith,
          (agreed_model-some_iff selected f h model).0,
          (agreed_from-some selected f h c model).0,
        ),
        λ p. ground (
          arith,
          (agreed_model-some_iff selected f h model).1,
          (agreed_from-some selected f h c model).1,
        ),
      )
    ]
