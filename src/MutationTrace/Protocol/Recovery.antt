-- ===== src/MutationTrace/Protocol/Recovery.antt =====
-- cli/src/services/mutation_trace/protocol.rs: `taint`, `database_failure`, `abandon`, `recover`.
pub mod Cases
pub mod Scopes
pub mod Effects
use shared_context_engineeri.Common.{
  ℕ, Bool, true, false, none, some, List, [], ◌∷◌, if◌then◌else◌, ◌!=◌, ◌||◌, not, lookup, insert,
  contains, contains_key, set_insert, set_remove,
}
use shared_context_engineeri.MutationTrace.Types.{
  WorktreeId, ScopeId, TreeId, healthy, snapshot_failure, abandoned, WorktreeState, ScopeState,
  ProtocolState,
}
use shared_context_engineeri.MutationTrace.Equality.{worktree_id_eq, scope_id_eq, failure_kind_eq}
use shared_context_engineeri.MutationTrace.Boundary.{is_live_scope}
use shared_context_engineeri.MutationTrace.Protocol.{next_revision, live_on}

abbrev pub tainted_worktree : WorktreeState → ℕ → WorktreeState
tainted_worktree w next_rev = record w {
  revision = next_rev;
  tainted = true;
  failure_kind = snapshot_failure;
}

unfoldable pub taint : ProtocolState → WorktreeId → ProtocolState
unfolding lookup contains insert
taint state worktree = elim (lookup worktree state.worktrees) [
  | none ↦ state
  | some w ↦
      if w.failure_kind != healthy || contains worktree state.external_taint
      then state
      else elim (next_revision w.revision) [
        | none ↦ state
        | some next_rev ↦ record state {
          worktrees = insert worktree (tainted_worktree w next_rev) state.worktrees;
        }
      ]
]

unfoldable pub database_failure : ProtocolState → WorktreeId → ProtocolState
unfolding contains_key contains set_insert
database_failure state worktree =
    if not (contains_key worktree state.worktrees) || contains worktree state.external_taint
    then state
    else record state { external_taint = set_insert worktree state.external_taint }

abbrev pub rebaseline_worktree : WorktreeState → ℕ → WorktreeState
rebaseline_worktree w next_rev = record w { revision = next_rev; needs_rebaseline = true }

abbrev pub abandoned_scope : ScopeState → ScopeState
abandoned_scope s = record s { status = abandoned }

-- `abandon` past its guards on the scope
unfoldable pub abandon_live : ProtocolState → ScopeId → ScopeState → ProtocolState
unfolding lookup insert
abandon_live state scope s = elim (lookup s.worktree_id state.worktrees) [
  | none ↦ state
  | some w ↦ elim (next_revision w.revision) [
    | none ↦ state
    | some next_rev ↦ record state {
      worktrees = insert s.worktree_id (rebaseline_worktree w next_rev) state.worktrees;
      scopes = insert scope (abandoned_scope s) state.scopes;
    }
  ]
]

unfoldable pub abandon : ProtocolState → ScopeId → ProtocolState
unfolding lookup contains abandon_live
abandon state scope = elim (lookup scope state.scopes) [
  | none ↦ state
  | some s ↦
      if not (is_live_scope s) || contains s.worktree_id state.external_taint
      then state
      else abandon_live state scope s
]

abbrev pub baseline : TreeId → ℕ → WorktreeState
baseline observed_tree next_rev = record {
  cursor_tree = observed_tree;
  revision = next_rev;
  tainted = false;
  failure_kind = healthy;
  needs_rebaseline = false;
}

-- the loop over `state.scopes`, which inserts into `next.scopes`
unfoldable pub abandon_live_on :
    WorktreeId
    → List (ScopeId × ScopeState)
    → List (ScopeId × ScopeState)
    → List (ScopeId × ScopeState)
unfolding insert
abandon_live_on worktree [] scopes = scopes
abandon_live_on worktree ((scope, s) ∷ rest) scopes =
    abandon_live_on worktree rest
      (if live_on worktree s then insert scope (abandoned_scope s) scopes else scopes)

-- whether `recover` takes the strong path, which abandons the live scopes
abbrev pub abandons_live_scopes : ProtocolState → WorktreeId → WorktreeState → Bool
abandons_live_scopes state worktree w =
    w.failure_kind != healthy || contains worktree state.external_taint

unfoldable pub recover : ProtocolState → WorktreeId → TreeId → ProtocolState
unfolding lookup contains insert set_remove abandon_live_on
recover state worktree observed_tree = elim (lookup worktree state.worktrees) [
  | none ↦ state
  | some w ↦
      let strong = abandons_live_scopes state worktree w in
      if not (strong || w.needs_rebaseline) then state else elim (next_revision w.revision) [
        | none ↦ state
        | some next_rev ↦ record state {
          worktrees = insert worktree (baseline observed_tree next_rev) state.worktrees;
          external_taint = set_remove worktree state.external_taint;
          scopes =
              if strong then abandon_live_on worktree state.scopes state.scopes else state.scopes;
        }
      ]
]
