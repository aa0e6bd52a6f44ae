-- ===== src/MutationTrace/Window/Pages.antt =====
-- The window that the loop over the pages gives.
use mathlib.Core.List.{reverse, reverse-reverse}
use shared_context_engineeri.Common.{
  ℕ, zero, suc, ◌+◌, ◌-◌, ◌≤◌, ◌<◌, ◌≡◌, refl, sym, ◌∙◌, Option, none, some, List, [], ◌∷◌, ◌++◌,
  length, length-append, min, ltb, Option-cases, Bool-cases, inl, inr, arith,
}
use shared_context_engineeri.Common.Result.{ok, err, ◌>>=◌}
use shared_context_engineeri.MutationTrace.Types.{WorktreeId}
use shared_context_engineeri.MutationTrace.Window.{
  MutationEventPageRow, MutationEventPageSource, ReplayState, last_revision, Window, load_pages,
  first_cursor, load_event_window,
}

-- The revisions descend, from below the cursor if there is one.
abbrev pub Descends : Option ℕ → List MutationEventPageRow → Type 0
Descends cursor [] = Unit
Descends none (row ∷ rows) = Descends (some row.revision) rows
Descends (some c) (row ∷ rows) = (row.revision < c) × Descends (some row.revision) rows

-- Every page that is read has at most the rows asked for, newest first, all before the cursor.
abbrev pub Paged : MutationEventPageSource → WorktreeId → Type 0
Paged source worktree =
    (cursor : Option ℕ) (want : ℕ) (page : List MutationEventPageRow)
    → source.load_mutation_event_page worktree cursor want ≡ some page
    → (length page ≤ want) × Descends cursor page

-- the cursor after the rows
abbrev last_of : Option ℕ → List MutationEventPageRow → Option ℕ
last_of cursor [] = cursor
last_of cursor (row ∷ rows) = last_of (some row.revision) rows

last_of-append :
    (cursor : Option ℕ) (rows page : List MutationEventPageRow)
    → last_of cursor (rows ++ page) ≡ last_of (last_of cursor rows) page
last_of-append cursor [] page = refl
last_of-append cursor (row ∷ rows) page = last_of-append (some row.revision) rows page

last_of-last_revision :
    (cursor : Option ℕ) (row : MutationEventPageRow) (rows : List MutationEventPageRow)
    → last_of cursor (row ∷ rows) ≡ some (last_revision row rows)
last_of-last_revision cursor row [] = refl
last_of-last_revision cursor row (next ∷ rows) = last_of-last_revision (some row.revision) next rows

Descends-append :
    (cursor : Option ℕ) (rows page : List MutationEventPageRow)
    → Descends cursor rows
    → Descends (last_of cursor rows) page
    → Descends cursor (rows ++ page)
Descends-append cursor [] page h k = k
Descends-append none (row ∷ rows) page h k = Descends-append (some row.revision) rows page h k
Descends-append (some c) (row ∷ rows) page h k =
    (h.0, Descends-append (some row.revision) rows page h.1 k)

-- the rows, newest first, are some, at most 128, and in order
abbrev Loaded : Option ℕ → Window → Type 0
Loaded top (err e) = ⊥
Loaded top (ok (rows, state)) = (length rows ≤ 128) × Descends top rows

load_pages-Loaded :
    (fuel : ℕ) (source : MutationEventPageSource) (worktree : WorktreeId) (top cursor : Option ℕ)
    (rows : List MutationEventPageRow) (state : ReplayState)
    → Paged source worktree
    → 128 - length rows < fuel
    → length rows ≤ 128
    → Descends top rows
    → cursor ≡ last_of top rows
    → Loaded top (load_pages fuel source worktree cursor rows state)
unfolding load_pages
load_pages-Loaded zero source worktree top cursor rows state paged f b d e =
    absurd (omega (arith, f))
load_pages-Loaded (suc fuel) source worktree top cursor rows state paged f b d e =
    let want = min 32 (128 - length rows) in
    elim (Bool-cases (ltb (length rows) 128)) [
      | inr full ↦ rw full (b, d)
      | inl room ↦ elim (Option-cases (source.load_mutation_event_page worktree cursor want)) [
        | inl failed ↦ rw (room, failed) (b, d)
        | inr ([], read) ↦ rw (room, read) (b, d)
        | inr (row ∷ more, read) ↦
            let page = row ∷ more in
            let (short, below) = paged cursor want page read in
            let joined = Descends-append top rows page d (rw (sym e) below) in
            let fits : length (rows ++ page) ≤ 128 =
              ground (arith, length-append rows page, short, room) in
            elim (Bool-cases (ltb (length page) want)) [
              | inl last ↦ rw (room, read, last) (fits, joined)
              | inr whole ↦
                  rw (room, read, whole)
                    (load_pages-Loaded fuel source worktree top (some (last_revision row more))
                      (rows ++ page)
                      (record state {
                        loaded_pages = state.loaded_pages + 1;
                        loaded_rows = state.loaded_rows + length page;
                      })
                      paged (ground (arith, f, length-append rows page, room)) fits joined
                      (sym (
                        last_of-append top rows page
                        ∙ last_of-last_revision (last_of top rows) row more)))
            ]
      ]
    ]

abbrev in_order : Window → Window
in_order w = w >>= λ r. ok (reverse r.0, r.1)

reversed :
    (top : Option ℕ) (w : Window)
    → Loaded top w
    → (events : List MutationEventPageRow) × (state : ReplayState) × (in_order w
        ≡ ok (events, state))
      × (length (reverse events) ≤ 128)
      × Descends top (reverse events)
reversed top (err e) h = absurd h
reversed top (ok (rows, state)) h =
    (reverse rows, state, refl, rw (reverse-reverse rows) h.0, rw (reverse-reverse rows) h.1)

-- If every page that is read has at most the rows asked for, newest first, all before the cursor,
-- the window is loaded, whichever reads fail: at most 128 events, in the order of their revisions,
-- and none of a later revision than the ceiling.
pub load_event_window-bounds :
    (source : MutationEventPageSource) (worktree : WorktreeId) (ceiling : Option ℕ)
    (state : ReplayState)
    → Paged source worktree
    → (events : List MutationEventPageRow) × (after : ReplayState) × (load_event_window source
          worktree ceiling state
        ≡ ok (events, after))
      × (length (reverse events) ≤ 128)
      × Descends (first_cursor ceiling) (reverse events)
unfolding load_event_window
load_event_window-bounds source worktree ceiling state paged =
    reversed (first_cursor ceiling) (load_pages 129 source worktree (first_cursor ceiling) [] state)
      (load_pages-Loaded 129 source worktree (first_cursor ceiling) (first_cursor ceiling) [] state
        paged (omega arith) (omega arith) tt refl)
