-- ===== src/MutationTrace/Maintenance/Tests.antt =====
-- A worktree whose reconciliation fails, and a write of its state that fails.
use native.Mathlib.Decide.{ℕ_discrete}
use shared_context_engineeri.Common.{◌≡◌, refl, String, true, false, none, some, [], ◌∷◌, arith}
use shared_context_engineeri.Common.Result.{Result, ok, err}
use shared_context_engineeri.MutationTrace.Maintenance.{
  MaintenanceState, StoredReport, default, valid, MaintenanceState-discrete, usable, due,
  advised_lately, failure_outstanding, failure_reminded, invalid_timestamps, evaluate,
}
use shared_context_engineeri.MutationTrace.Maintenance.Plan.{
  plan_advisory, decide, normalize, record_success, record_failure, take_chars, advised, no_action,
}
use shared_context_engineeri.MutationTrace.Maintenance.Advice.{
  record_success-advice, record_failure-advised,
}
use shared_context_engineeri.MutationTrace.Maintenance.Settled.{plan_advisory-quiet}
use shared_context_engineeri.MutationTrace.Maintenance.Planned.{stored_after}
use shared_context_engineeri.MutationTrace.Maintenance.Files.{
  PathBuf, state_path, write_state_atomically, PersistFailure, not_applied, rename,
}
use shared_context_engineeri.MutationTrace.Maintenance.Atomic.{write_state_atomically-After}
use shared_context_engineeri.MutationTrace.Maintenance.Sample.{
  DiskState, PathBuf-discrete, disk, disk-IsDocumented, with_file,
}

machinery : Unit {0}
unfolding MaintenanceState-discrete usable due advised_lately failure_outstanding failure_reminded
    invalid_timestamps evaluate plan_advisory decide normalize record_success record_failure
    take_chars ℕ_discrete
machinery = tt

abbrev report : StoredReport
report = record { retained = 3; deleted = 1; local_required = 2 }

-- a pass that failed at 5000
abbrev failing : MaintenanceState
unfolding machinery
failing = record_failure default 5000 "prune_conflict" "The cursor advanced"

record_success-advice_example :
    (evaluate (record_success failing 6000 report) 86406000).recommended ≡ true
unfolding machinery
record_success-advice_example =
    record_success-advice failing report 6000 86406000 (omega arith) (omega arith)

record_failure-advised_example : (plan_advisory (valid failing) 7000).0 ≡ advised
unfolding machinery
record_failure-advised_example =
    record_failure-advised default 5000 7000 "prune_conflict" "The cursor advanced" refl
      (omega arith) (omega arith)

plan_advisory-quiet_example :
    plan_advisory (valid (record failing { anchor = some 7000; last_advised = some 7000 })) 80000000
    ≡ (no_action, none)
unfolding machinery
plan_advisory-quiet_example =
    plan_advisory-quiet (valid failing) 7000 80000000 refl refl (omega arith) (omega arith)
      (omega arith)

-- With a clock that went back before the failed attempt, the advice is planned again and again.
advised_again :
    (plan_advisory (stored_after (valid failing) (plan_advisory (valid failing) 4000).1) 4001).0
    ≡ advised
unfolding machinery
advised_again = refl

abbrev git_dir : PathBuf
git_dir = ".git" ∷ "repo" ∷ []

disk_machinery : Unit {0}
unfolding disk write_state_atomically PathBuf-discrete
disk_machinery = tt

-- the old state is on the disk, and the rename fails
abbrev stored : DiskState
unfolding disk_machinery
stored = record {
  files = with_file (state_path git_dir) (some "old") (λ _. none);
  fates = true ∷ true ∷ true ∷ true ∷ false ∷ [];
}

abbrev written : Result (PersistFailure String) (Unit {0}) × DiskState
unfolding disk_machinery
written = write_state_atomically disk (λ _. ok "new") (state_path git_dir) default stored

rename_fails : written.0 ≡ err (not_applied rename "failed" none)
unfolding disk_machinery written stored
rename_fails = refl

write_state_atomically-After_example : written.1.files (state_path git_dir) ≡ some "old"
unfolding disk_machinery written stored
write_state_atomically-After_example =
    write_state_atomically-After disk (λ s. s.files) "" disk-IsDocumented (λ _. ok "new") git_dir
      default "new" stored refl
