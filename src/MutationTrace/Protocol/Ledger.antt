-- ===== src/MutationTrace/Protocol/Ledger.antt =====
-- An abstract specification of what the protocol keeps of one worktree: a ledger and its moves.
use shared_context_engineeri.Common.{
  ◌+◌, ◌≡◌, Bool, true, false, ℕ, some, List, [], ◌∷◌, lookup, contains, ◌==◌, ◌!=◌, ◌||◌,
}
use shared_context_engineeri.MutationTrace.Types.{
  WorktreeId, TreeId, WorktreeState, MutationEvent, ProtocolState,
}
use shared_context_engineeri.MutationTrace.Equality.{
  worktree_id_eq, scope_id_eq, tree_id_eq, mutation_event_eq,
}

-- The ledger of a worktree: where its cursor is, whether it waits for a new baseline, and the
-- changes that were observed on it, in no order.
pub record Ledger : Type 0 where
  pub tree : TreeId
  pub revision : ℕ
  pub waiting : Bool
  pub has_event : MutationEvent → Bool

pub data Move : Type 0 where
  -- nothing happens to the worktree
  stay : Move
  -- the next revision, and nothing else
  advance : Move
  -- the next revision, and the worktree waits
  wait : Move
  -- a change, with its event
  observe : MutationEvent → Move
  -- a new baseline
  reset : TreeId → Move

abbrev pub move : Move → Ledger → Ledger
move stay l = l
move advance l = record l { revision = l.revision + 1 }
move wait l = record l { revision = l.revision + 1; waiting = true }
move (observe event) l = record l {
  tree = event.after_tree;
  revision = event.revision;
  has_event = λ e. e == event || l.has_event e;
}
move (reset tree) l = record l { tree = tree; revision = l.revision + 1; waiting = false }

-- A change may be entered only while the worktree does not wait, and it goes on from the ledger: it
-- starts at the cursor, ends somewhere else, and has the next revision.
abbrev pub IsAllowed : WorktreeId → Move → Ledger → Type 0
IsAllowed v (observe event) l =
    (l.waiting ≡ false)
    × (event.worktree_id ≡ v)
    × (event.before_tree ≡ l.tree)
    × ((event.before_tree != event.after_tree) ≡ true)
    × (event.revision ≡ l.revision + 1)
IsAllowed v stay l = Unit
IsAllowed v advance l = Unit
IsAllowed v wait l = Unit
IsAllowed v (reset _) l = Unit

abbrev pub move_all : List Move → Ledger → Ledger
move_all [] l = l
move_all (m ∷ moves) l = move_all moves (move m l)

abbrev pub AllAllowed : WorktreeId → List Move → Ledger → Type 0
AllAllowed v [] l = Unit
AllAllowed v (m ∷ moves) l = IsAllowed v m l × AllAllowed v moves (move m l)

-- The ledger is what the state keeps of the worktree.
pub record Agrees (v : WorktreeId) (s : ProtocolState) (l : Ledger) : Type 0 where
  pub state : WorktreeState
  pub found : lookup v s.worktrees ≡ some state
  pub tree_eq : state.cursor_tree ≡ l.tree
  pub revision_eq : state.revision ≡ l.revision
  pub waiting_eq : state.needs_rebaseline ≡ l.waiting
  pub events_eq :
      (e : MutationEvent) → e.worktree_id ≡ v → contains e s.mutation_events ≡ l.has_event e
