-- ===== src/Patch/Parse/Total.antt =====
-- The fuel of the parser is enough.
use shared_context_engineeri.Common.{
  ℕ, zero, suc, ◌≤◌, ◌≡◌, ◌⊎◌, refl, String, Bool, true, false, Option, none, some, List, [], ◌∷◌,
  ◌++◌, length, arith, Option-cases, inl, inr,
}
use shared_context_engineeri.Common.Text.{
  strip_prefix, trim, trim_start, split_at, first_word, after_word, lines_from,
}
use shared_context_engineeri.Patch.{PatchHunk, PatchFileChange, ParsedPatch}
use shared_context_engineeri.Patch.Parse.{
  ParseError, missing_close, missing_old_range, missing_new_range, non_empty, out_of_fuel, Parsed,
  ok, err, ◌>>=◌, ok_or, FileBuilder, Counters, body_line, parse_body, parse_range_part,
  parse_hunk_header, parse_hunk_header_and_body, Round, other_line, path_line, round, parse_from,
  parse_patch,
}

abbrev pub is_out_of_fuel : ParseError → Bool
is_out_of_fuel out_of_fuel = true
is_out_of_fuel _ = false

parse_body-length :
    (session_id : Option String) (lines : List String) (counters : Counters)
    → length (parse_body session_id counters lines).1 ≤ length lines
unfolding parse_body
parse_body-length session_id [] counters = omega arith
parse_body-length session_id (line ∷ lines) counters =
    ground (arith, parse_body-length session_id lines (body_line session_id counters line).1)

-- not out of fuel
abbrev Fueled : {A : Type 0} → Parsed A → Type 0
Fueled (ok a) = Unit
Fueled (err e) = is_out_of_fuel e ≡ false

parse_range_part-Fueled : (prefix s : String) → Fueled (parse_range_part prefix s)
unfolding parse_range_part
parse_range_part-Fueled prefix s = ground arith

ok_or-Fueled :
    {A : Type 0} (o : Option A) (e : ParseError) → is_out_of_fuel e ≡ false → Fueled (ok_or o e)
ok_or-Fueled none e h = h
ok_or-Fueled (some a) e h = tt

bind-Fueled :
    {A B : Type 0} (m : Parsed A) (f : A → Parsed B)
    → Fueled m
    → ((a : A) → Fueled (f a))
    → Fueled (m >>= f)
bind-Fueled (ok a) f h k = k a
bind-Fueled (err e) f h k = h

parse_hunk_header-Fueled : (rest : String) → Fueled (parse_hunk_header rest)
unfolding parse_hunk_header
parse_hunk_header-Fueled rest =
    bind-Fueled (ok_or (split_at "@@" rest) missing_close) _
      (ok_or-Fueled (split_at "@@" rest) missing_close refl)
      λ header.
        let range_part = trim header.0 in
        bind-Fueled (ok_or (non_empty (first_word range_part)) missing_old_range) _
          (ok_or-Fueled (non_empty (first_word range_part)) missing_old_range refl)
          λ old_range.
            let second = non_empty (first_word (trim_start (after_word range_part))) in
            bind-Fueled (ok_or second missing_new_range) _
              (ok_or-Fueled second missing_new_range refl)
              λ new_range.
                bind-Fueled (parse_range_part "-" old_range) _
                  (parse_range_part-Fueled "-" old_range)
                  λ old.
                    bind-Fueled (parse_range_part "+" new_range) _
                      (parse_range_part-Fueled "+" new_range) (λ new. tt)

abbrev BodyShrinks : ℕ → Parsed (PatchHunk × List String) → Type 0
BodyShrinks n (ok r) = length r.1 ≤ n
BodyShrinks n (err e) = is_out_of_fuel e ≡ false

parse_hunk-BodyShrinks :
    (session_id : Option String) (rest : String) (lines : List String)
    → BodyShrinks (length lines) (parse_hunk_header_and_body session_id rest lines)
unfolding parse_hunk_header_and_body
parse_hunk-BodyShrinks session_id rest lines =
    header (parse_hunk_header rest) (parse_hunk_header-Fueled rest)
  where
    header :
        (m : Parsed ((ℕ × ℕ) × (ℕ × ℕ)))
        → Fueled m
        → BodyShrinks (length lines) (
            m >>= λ ranges.
            let body = parse_body session_id (ranges.0.0, ranges.1.0) lines in
            ok (
              record {
                old_start = ranges.0.0;
                old_count = ranges.0.1;
                new_start = ranges.1.0;
                new_count = ranges.1.1;
                model_id = none;
                lines = body.0;
              },
              body.1,
            ))
    header (ok r) h = parse_body-length session_id lines (r.0.0, r.1.0)
    header (err e) h = h

-- not out of fuel, and no more lines left than before
abbrev Shrinks : ℕ → Parsed Round → Type 0
Shrinks n (ok r) = length r.1.1 ≤ n
Shrinks n (err e) = is_out_of_fuel e ≡ false

other_line-Shrinks :
    (session_id : Option String) (current : Option FileBuilder) (line : String)
    (lines : List String)
    → Shrinks (length lines) (other_line session_id current line lines)
unfolding other_line
other_line-Shrinks session_id current line lines = elim (Option-cases (strip_prefix "@@ " line)) [
  | inl e ↦ ground arith
  | inr (rest, e) ↦ ground (arith, parse_hunk-BodyShrinks session_id rest lines)
]

path_line-Shrinks :
    (session_id : Option String) (current : Option FileBuilder) (line : String)
    (lines : List String)
    → Shrinks (length lines) (path_line session_id current line lines)
unfolding path_line
path_line-Shrinks session_id current line lines =
    ground (arith, other_line-Shrinks session_id current line lines)

round-Shrinks :
    (session_id : Option String) (current : Option FileBuilder) (line : String)
    (lines : List String)
    → Shrinks (length lines) (round session_id current line lines)
unfolding round
round-Shrinks session_id current line lines =
    ground (arith, path_line-Shrinks session_id current line lines)

parse_from-Fueled :
    (fuel : ℕ) (session_id : Option String) (current : Option FileBuilder) (lines : List String)
    → length lines ≤ fuel
    → Fueled (parse_from fuel session_id current lines)
unfolding parse_from
parse_from-Fueled fuel session_id current [] h = ground arith
parse_from-Fueled zero session_id current (line ∷ lines) h = absurd (omega arith)
parse_from-Fueled (suc fuel) session_id current (line ∷ lines) h =
    after (parse_from fuel session_id)
      (λ next left q. parse_from-Fueled fuel session_id next left (omega (arith, h, q)))
      (round session_id current line lines) (round-Shrinks session_id current line lines)
  where
    after :
        (continue : Option FileBuilder → List String → Parsed (List PatchFileChange))
        → ((next : Option FileBuilder) (left : List String)
            → length left ≤ length lines
            → Fueled (continue next left))
        → (m : Parsed Round) → Shrinks (length lines) m
        → Fueled (m >>= λ r. continue r.1.0 r.1.1 >>= λ files. ok (r.0 ++ files))
    after continue ih (ok r) k =
        bind-Fueled (continue r.1.0 r.1.1) _ (ih r.1.0 r.1.1 k) (λ files. tt)
    after continue ih (err e) k = k

-- The parser ends on every input with a patch or with an error of the input: the fuel, the number
-- of lines, never runs out.
pub parse_patch-total :
    (input : String) (session_id : Option String)
    → ((patch : ParsedPatch) × (parse_patch input session_id ≡ ok patch))
      ⊎ ((e : ParseError) × (parse_patch input session_id ≡ err e) × (is_out_of_fuel e ≡ false))
unfolding parse_patch
parse_patch-total input session_id =
    let lines = lines_from [] input in
    outcome (parse_from (length lines) session_id none lines)
      (parse_from-Fueled (length lines) session_id none lines (omega arith))
  where
    patch_of : Parsed (List PatchFileChange) → Parsed ParsedPatch
    patch_of m = m >>= λ files. ok (record { files = files })

    outcome :
        (m : Parsed (List PatchFileChange))
        → Fueled m
        → ((patch : ParsedPatch) × (patch_of m ≡ ok patch))
          ⊎ ((e : ParseError) × (patch_of m ≡ err e) × (is_out_of_fuel e ≡ false))
    outcome (ok files) h = inl (record { files = files }, refl)
    outcome (err e) h = inr (e, refl, h)
