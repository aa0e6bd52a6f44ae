-- ===== src/Lib.antt =====
-- The mutation trace of the command line tool: which agent changed which line of a worktree.
--
-- The hooks of the harnesses (Claude Code, Codex, OpenCode, Pi) report boundaries: the start, the
-- advance and the close of a scope, or a flush. At each boundary the runtime takes a snapshot tree
-- of the worktree, prepares an attempt against the worktree's cursor and commits it. A commit is a
-- compare-and-swap on the worktree's revision; it moves the cursor and emits a mutation event that
-- attributes the change to one scope, to several, or to none. Failures taint a worktree, and a
-- recovery gives it a new baseline. The patches of the events are then replayed over a baseline of
-- the files, which yields the provenance of each line.
--
-- Common: equality tests, lists over the native numbers, maps and sets as association lists and
-- lists (an insertion replaces the value of a key), and results that are a value, an error or a
-- panic. Maps keep no order of keys; nothing that is modelled depends on it.
-- Patch: cli/src/services/patch.rs: the data types here, `intersect_patches` in Patch/Intersect. What
-- `Path::components` makes of a path is a parameter. `parse_patch` in Patch/Parse: the loop over the
-- lines runs on fuel, the number of lines; the counters of lines wrap as in a release build; the text
-- of an error is left out. `combine_patches` in Patch/Combine: its maps keep the order of insertion,
-- and the sorts leave nothing of it.
-- MutationTrace/Types, Equality, Boundary: cli/src/services/mutation_trace/types.rs. The identity
-- types are records of one string.
-- MutationTrace/Protocol: cli/src/services/mutation_trace/protocol.rs: `prepare` here; `resolve`,
-- `evaluate`, `apply` and `commit` in Protocol/Commit; `taint`, `database_failure`, `abandon` and
-- `recover` in Protocol/Recovery. A state is passed and returned as in the source. `commit`
-- returns `none` for the panic of `apply` on a missing revision. Protocol/Actions runs a list of
-- calls, so that every interleaving of hooks and recoveries is one of its lists. Protocol/Ledger
-- is an abstract specification of what is kept of one worktree.
-- MutationTrace/Lineage: cli/src/services/mutation_trace/lineage.rs: one hunk here, files and
-- patches in Lineage/Files, histories of patches and resets in Lineage/History. `u64` and `usize`
-- are natural numbers with the largest value written out; a sum that overflows is a panic. All
-- loops are structural: no fuel is needed.
-- MutationTrace/Attribution: cli/src/services/mutation_trace/attribution.rs: a patch restricted to a
-- set of its lines, with or without their provenance, or to those that another patch does not cover
-- (Attribution/Uncovered). `enumerate` is an index that is passed on.
-- MutationTrace/Window: cli/src/services/mutation_trace/runtime/mutation_attribution.rs: the pages
-- of events here, the projection in Window/Project, the replay in Window/Replay, which puts the
-- parser, the lineage and the attribution together. The store and the trees are parameters, as
-- they are traits in the source; every read may fail; the three results are sorted out of one list
-- of the lines with their provenance. The loop over the pages runs on fuel, one more than the
-- largest number of events: each page that does not end it has a row.
-- MutationTrace/Maintenance: cli/src/services/mutation_trace/runtime/maintenance_state.rs: the
-- evaluation of the maintenance state here, the advice that is planned and the records of a pass in
-- Maintenance/Plan, the write of the state in Maintenance/Files. An i64 timestamp is kept as the
-- number that is 2^63 more, so that its order and the differences stay and nothing is negative. The
-- calls of std::fs, the clock and the JSON form are parameters; Maintenance/Documented states what
-- is documented of them, and Maintenance/Sample is a disk of which every call may fail. The loop over
-- the names of the staging file is its number of attempts, 1000.
-- BashPolicy: cli/src/services/bash_policy.rs: the tokenizer and the segments in BashPolicy/Shell, the
-- normalisation in BashPolicy/Normalize, the active policies and the selection in BashPolicy/Select,
-- the evaluation in BashPolicy/Evaluate. `Path::file_name` and the generated catalog of presets are
-- parameters. The recursion on nested commands runs on fuel, one more than the command's characters:
-- a nested command is shorter by at least the flag before it. `char::is_whitespace` is written out.
-- BashPolicy/Config: cli/src/services/config/policy.rs: the validation of the configured policies,
-- before they reach the evaluation; an error is its reason alone.
-- CodexScope: cli/src/services/hooks/codex_mutation_scope: the identities of events.rs here, each
-- transaction on the state file of state.rs in CodexScope/State, the locks, reads, writes and
-- calls in CodexScope/World, the handlers of lifecycle.rs in CodexScope/Lifecycle. Any lock, read,
-- write or call of the mutation trace may fail: a world lists which of those to come do, and every
-- list is a run. The handlers run under the boundary lock, so that they follow one another. The
-- loop over the stale attempts runs on fuel, the number of attempts: each round removes one. A
-- JSON payload is a value; the logs, the provenance of a start and the parsing of the hooks' input
-- are left out, and the counters do not overflow.
-- Resilience: cli/src/services/resilience.rs: the retry policy, its backoff and the retry loop. The
-- operation and its outcome under the timeout are parameters; the sleeps are listed in the result.
-- `run_with_retry_elapsed` and `builtin` are left out.
--
-- Not modelled: the database store, the git snapshots and the hooks' input (I/O); the coordinator, the
-- reconciliation of the pins, the lock of a worktree and the read of the maintenance state, which call
-- them; the adapters of Claude Code, OpenCode and Pi; the agent trace document; and the other
-- commands of the tool.
pub mod Common
pub mod BashPolicy
pub mod Patch
pub mod CodexScope
pub mod Resilience
pub mod MutationTrace
