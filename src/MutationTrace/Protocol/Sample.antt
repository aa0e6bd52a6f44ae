-- ===== src/MutationTrace/Protocol/Sample.antt =====
-- A small state: one worktree, a scope of Claude Code that has not started and an active one of
-- Codex, and three prepared attempts.
use shared_context_engineeri.Common.{
  ◌≡◌, String, refl, true, false, some, List, [], ◌∷◌, lookup, insert, modify, remove, contains,
  set_insert, set_remove, contains_key, keys_where, String-discrete, arith,
}
use native.Mathlib.Decide.{ℕ_discrete}
use shared_context_engineeri.MutationTrace.Types.{
  WorktreeId, ScopeId, TreeId, EventId, AttemptId, claude_code, codex, healthy, never_seen, active,
  prepared, ai_exclusive, Boundary, start, close, WorktreeState, ScopeState, AttemptState,
  MutationEvent, ProtocolState,
}
use shared_context_engineeri.MutationTrace.Equality.{
  WorktreeId-discrete, ScopeId-discrete, TreeId-discrete, AttemptId-discrete, EventKey-discrete,
  FailureKind-discrete, ScopeStatus-discrete, AttemptStatus-discrete, MutationEvent-discrete,
  worktree_id_eq, scope_id_eq, event_key_eq, mutation_event_eq, EventId-discrete,
  Attribution-discrete, Boundary-discrete,
}
use shared_context_engineeri.MutationTrace.Boundary.{
  boundary_worktree, boundary_scope, boundary_event, boundary_event_key, is_start, is_advance,
  is_close, is_flush, is_hook,
}
use shared_context_engineeri.MutationTrace.Protocol.{
  next_revision, live_scopes_on, attribution_for, requires_boundary_confirmation,
  scope_requires_confirmation, boundary_confirms_scope, has_unconfirmed_required_scope,
  boundary_closes_never_seen_scope, attribution_for_boundary, resolve_worktree, prepare,
}
use shared_context_engineeri.MutationTrace.Protocol.Commit.{
  CommitOutcome, ResolvedAttempt, resolve, is_new_event, is_fresh, observes_scope, evaluate,
  apply_scope, apply_worktree, apply_event_key, mutation_event, apply_mutation_event,
  advanced_revision, apply, commit,
}
use shared_context_engineeri.MutationTrace.Protocol.Commit.Cases.{outcome_of}
use shared_context_engineeri.MutationTrace.Protocol.Recovery.{
  taint, database_failure, abandon, recover,
}
use shared_context_engineeri.MutationTrace.Protocol.Actions.{Action, commit_attempt, perform, run}
use shared_context_engineeri.MutationTrace.Protocol.WellFormed.{IsWellFormed}
use shared_context_engineeri.MutationTrace.Protocol.Runs.{performed}

-- all that a run computes with
unfoldable pub machinery : Unit {0}
unfolding commit resolve is_new_event is_fresh observes_scope evaluate apply_scope apply_worktree
    apply_event_key mutation_event apply_mutation_event advanced_revision apply next_revision
    live_scopes_on attribution_for requires_boundary_confirmation scope_requires_confirmation
    boundary_confirms_scope has_unconfirmed_required_scope boundary_closes_never_seen_scope
    attribution_for_boundary resolve_worktree prepare taint database_failure abandon recover perform
    run lookup insert modify remove contains set_insert set_remove contains_key keys_where
    boundary_worktree boundary_scope boundary_event boundary_event_key is_start is_advance is_close
    is_flush is_hook WorktreeId-discrete ScopeId-discrete TreeId-discrete AttemptId-discrete
    EventKey-discrete FailureKind-discrete ScopeStatus-discrete AttemptStatus-discrete
    MutationEvent-discrete EventId-discrete Attribution-discrete Boundary-discrete String-discrete
    ℕ_discrete
machinery = tt

abbrev pub wt : WorktreeId
wt = record { text = "worktree" }

abbrev pub claude_scope : ScopeId
claude_scope = record { text = "claude" }

abbrev pub codex_scope : ScopeId
codex_scope = record { text = "codex" }

abbrev pub tree : String → TreeId
tree t = record { text = t }

abbrev pub event : String → EventId
event t = record { text = t }

abbrev pub attempt : String → AttemptId
attempt t = record { text = t }

abbrev pub tree₀ : WorktreeState
tree₀ = record {
  cursor_tree = tree "t0";
  revision = 0;
  tainted = false;
  failure_kind = healthy;
  needs_rebaseline = false;
}

abbrev pub prepared_for : Boundary → TreeId → AttemptState
prepared_for b after = record {
  status = prepared;
  boundary = b;
  expected_revision = 0;
  before_tree = tree "t0";
  after_tree = after;
}

abbrev pub claude_state : ScopeState
claude_state = record { status = never_seen; actor_kind = claude_code; worktree_id = wt }

abbrev pub codex_state : ScopeState
codex_state = record { status = active; actor_kind = codex; worktree_id = wt }

abbrev pub sample : ProtocolState
sample = record {
  worktrees = (wt, tree₀) ∷ [];
  scopes = (claude_scope, claude_state) ∷ (codex_scope, codex_state) ∷ [];
  external_taint = [];
  processed_events = [];
  attempts =
      (attempt "close", prepared_for (close codex_scope (event "e1")) (tree "t1"))
      ∷ (attempt "start", prepared_for (start claude_scope (event "e2")) (tree "t2"))
      ∷ (attempt "again", prepared_for (close codex_scope (event "e1")) (tree "t3"))
      ∷ [];
  mutation_events = [];
}

pub sample-IsWellFormed : IsWellFormed sample
unfolding machinery
sample-IsWellFormed = record {
  unique_worktrees = (refl, tt);
  unique_scopes = (refl, (refl, tt));
  sound = λ w. ground arith;
  taint_known = λ w p. ground arith;
  evidence = λ e p. absurd (ground arith);
  one_each = λ e f p. absurd (ground arith);
}

abbrev pub closing : List Action
closing = commit_attempt (attempt "close") ∷ commit_attempt (attempt "start") ∷ []

abbrev pub closing_outcome : CommitOutcome
unfolding machinery
closing_outcome = outcome_of sample (attempt "close") (resolve sample (attempt "close"))

abbrev pub after_closing : ProtocolState
after_closing = closing_outcome.state

abbrev pub closing_attempt : ResolvedAttempt
closing_attempt = record {
  planned = prepared_for (close codex_scope (event "e1")) (tree "t1");
  boundary = close codex_scope (event "e1");
  worktree = wt;
  worktree_state = tree₀;
  scope_id = some codex_scope;
}

abbrev pub event₁ : MutationEvent
event₁ = record {
  worktree_id = wt;
  revision = 1;
  before_tree = tree "t0";
  after_tree = tree "t1";
  active_scopes = codex_scope ∷ [];
  tainted = false;
  failure_kind = healthy;
  attribution = ai_exclusive codex_scope;
  boundary = close codex_scope (event "e1");
}

pub closing_resolves : resolve sample (attempt "close") ≡ some closing_attempt
unfolding machinery
closing_resolves = refl

pub closing_commits : commit sample (attempt "close") ≡ some closing_outcome
unfolding machinery
closing_commits = refl

closing_emits : contains event₁ after_closing.mutation_events ≡ true
unfolding machinery
closing_emits = refl

-- the state after the stale attempt at a start is rejected
abbrev pub after_start : ProtocolState
unfolding machinery
after_start = performed (commit_attempt (attempt "start")) after_closing

pub start_rejected : run (commit_attempt (attempt "start") ∷ []) after_closing ≡ some after_start
unfolding machinery
start_rejected = refl

abbrev pub again_attempt : ResolvedAttempt
again_attempt = record {
  planned = prepared_for (close codex_scope (event "e1")) (tree "t3");
  boundary = close codex_scope (event "e1");
  worktree = wt;
  worktree_state = record tree₀ { cursor_tree = tree "t1"; revision = 1 };
  scope_id = some codex_scope;
}

abbrev pub again_outcome : CommitOutcome
unfolding machinery
again_outcome = outcome_of after_start (attempt "again") (resolve after_start (attempt "again"))

pub again_resolves : resolve after_start (attempt "again") ≡ some again_attempt
unfolding machinery
again_resolves = refl

pub again_commits : commit after_start (attempt "again") ≡ some again_outcome
unfolding machinery
again_commits = refl
