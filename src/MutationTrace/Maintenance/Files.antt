-- ===== src/MutationTrace/Maintenance/Files.antt =====
-- cli/src/services/mutation_trace/runtime/maintenance_state.rs: the write of the maintenance state. The
-- calls of std::fs and of the clock are a parameter, `Disk`, and so is the JSON form of the state. A
-- path is the list of its components, the last one first, so that `join` is `∷`.
use shared_context_engineeri.Common.{
  ℕ, zero, suc, ◌+◌, String, Bool, Option, none, some, List, [], ◌∷◌, if◌then◌else◌, ◌==◌, nat_eq,
}
use Prim.Native.String.{◌++◌}
use shared_context_engineeri.Common.Text.{decimal, decimal_from}
use shared_context_engineeri.Common.Result.{Result, ok, err}
use shared_context_engineeri.Common.Exec.{Exec, pure, raise, ◌>>=◌, ◌>>◌}
use shared_context_engineeri.Common.Exec.Errors.{catch, map_err, err_of}
use shared_context_engineeri.MutationTrace.Maintenance.{MaintenanceState}

abbrev pub PathBuf : Type 0
PathBuf = List String

abbrev pub parent : PathBuf → Option PathBuf
parent [] = none
parent (_ ∷ directory) = some directory

abbrev pub sce_runtime_dir : String
sce_runtime_dir = "sce"

abbrev pub maintenance_state_file : String
maintenance_state_file = "ref-maintenance.json"

abbrev pub staging_attempts : ℕ
staging_attempts = 1000

abbrev pub state_path : PathBuf → PathBuf
state_path git_dir = maintenance_state_file ∷ sce_runtime_dir ∷ git_dir

pub data PersistPhase : Type 0 where
  serialize create_staging write_staging sync_staging rename : PersistPhase
  open_parent_directory sync_parent_directory : PersistPhase

pub data PersistFailure (IoError : Type 0) : Type 0 where
  not_applied : PersistPhase → IoError → Option IoError → PersistFailure IoError
  durability_uncertain : PersistPhase → IoError → PersistFailure IoError

-- the trait `StateFilesystem`, over the states `S` of the disk
pub record StateFilesystem (S Bytes Handle IoError : Type 0) : Type 0 where
  pub create : PathBuf → Exec IoError S PathBuf
  pub write : PathBuf → Bytes → Exec IoError S (Unit {0})
  pub sync : PathBuf → Exec IoError S (Unit {0})
  pub move : PathBuf → PathBuf → Exec IoError S (Unit {0})
  pub open_directory : PathBuf → Exec IoError S Handle
  pub sync_directory : Handle → Exec IoError S (Unit {0})
  pub remove : PathBuf → Exec IoError S (Unit {0})

-- what the implementation calls: the time since the epoch, the id of the process, and std::fs
pub record Disk (S Bytes Handle IoError : Type 0) : Type 0 where
  pub epoch_nanos : Exec IoError S ℕ
  pub process_id : ℕ
  -- `OpenOptions::create_new`
  pub create_new : PathBuf → Exec IoError S (Unit {0})
  -- `OpenOptions::open` and `write_all`, `sync_data`
  pub write_all : PathBuf → Bytes → Exec IoError S (Unit {0})
  pub sync_data : PathBuf → Exec IoError S (Unit {0})
  pub rename_file : PathBuf → PathBuf → Exec IoError S (Unit {0})
  pub open_file : PathBuf → Exec IoError S Handle
  pub sync_all : Handle → Exec IoError S (Unit {0})
  pub remove_file : PathBuf → Exec IoError S (Unit {0})
  pub is_already_exists : IoError → Bool
  -- "could not allocate a unique maintenance state staging file"
  pub exhausted : IoError
  -- "maintenance state path has no parent directory"
  pub no_parent : IoError

-- `Display` of a `u128`, which has at most 39 digits
abbrev pub decimal_u128 : ℕ → String
decimal_u128 n = if n == 0 then "0" else decimal_from 39 n ""

-- `.{MAINTENANCE_STATE_FILE}.staging-{epoch_nanos}-{process}-{attempt}`
unfoldable pub staging_name : ℕ → ℕ → ℕ → String
unfolding decimal_from
staging_name epoch_nanos process attempt =
    "."
    ++ maintenance_state_file
    ++ ".staging-"
    ++ decimal_u128 epoch_nanos
    ++ "-"
    ++ decimal process
    ++ "-"
    ++ decimal attempt

module _ {S Bytes Handle IoError : Type 0} (disk : Disk S Bytes Handle IoError) where
  -- the attempts from `attempt` on, `count` of them
  unfoldable pub create_candidates : ℕ → ℕ → PathBuf → ℕ → Exec IoError S PathBuf
  unfolding staging_name catch ◌>>=◌
  create_candidates zero attempt directory epoch_nanos = raise disk.exhausted
  create_candidates (suc count) attempt directory epoch_nanos =
      let candidate = staging_name epoch_nanos disk.process_id attempt ∷ directory in
      let next = create_candidates count (attempt + 1) directory epoch_nanos in
      catch (disk.create_new candidate >> pure candidate)
        λ e. if disk.is_already_exists e then next else raise e

  unfoldable pub create_staging_file : PathBuf → Exec IoError S PathBuf
  unfolding create_candidates ◌>>=◌
  create_staging_file directory =
      disk.epoch_nanos >>= create_candidates staging_attempts 0 directory

  -- `RealStateFilesystem`
  abbrev pub real_state_filesystem : StateFilesystem S Bytes Handle IoError
  unfolding create_staging_file
  real_state_filesystem = record {
    create = create_staging_file;
    write = disk.write_all;
    sync = disk.sync_data;
    move = disk.rename_file;
    open_directory = disk.open_file;
    sync_directory = disk.sync_all;
    remove = disk.remove_file;
  }

module _ {S Bytes Handle IoError : Type 0} (fs : StateFilesystem S Bytes Handle IoError) where
  -- `staged`: the new bytes take the place of the file
  unfoldable pub stage : PathBuf → PathBuf → Bytes → Exec (PersistPhase × IoError) S (Unit {0})
  unfolding map_err ◌>>=◌
  stage staging path bytes =
      map_err (λ e. (write_staging, e)) (fs.write staging bytes)
      >> map_err (λ e. (sync_staging, e)) (fs.sync staging)
      >> map_err (λ e. (rename, e)) (fs.move staging path)

  -- after a failure the staging file is removed
  unfoldable pub discard :
      PathBuf → PersistPhase × IoError → Exec (PersistFailure IoError) S (Unit {0})
  unfolding err_of ◌>>=◌
  discard staging (phase, source) =
      err_of (fs.remove staging) >>= λ cleanup. raise (not_applied phase source cleanup)

  -- the directory of the renamed file is written to the disk
  unfoldable pub confirm : PathBuf → Exec (PersistFailure IoError) S (Unit {0})
  unfolding map_err ◌>>=◌
  confirm directory =
      map_err (durability_uncertain open_parent_directory) (fs.open_directory directory)
      >>= λ handle. map_err (durability_uncertain sync_parent_directory) (fs.sync_directory handle)

  unfoldable pub persist_bytes :
      PathBuf → PathBuf → Bytes → Exec (PersistFailure IoError) S (Unit {0})
  unfolding stage discard confirm map_err catch ◌>>=◌
  persist_bytes path directory bytes =
      map_err (λ e. not_applied create_staging e none) (fs.create directory) >>= λ staging.
      catch (stage staging path bytes) (discard staging) >> confirm directory

  abbrev pub write_encoded :
      IoError → PathBuf → Result IoError Bytes → Exec (PersistFailure IoError) S (Unit {0})
  unfolding persist_bytes
  write_encoded no_parent path (err e) = raise (not_applied serialize e none)
  write_encoded no_parent path (ok bytes) = elim (parent path) [
    | none ↦ raise (not_applied create_staging no_parent none)
    | some directory ↦ persist_bytes path directory bytes
  ]

  -- `to_vec` is the JSON form of the state
  unfoldable pub write_state_atomically_with :
      IoError
      → (MaintenanceState → Result IoError Bytes)
      → PathBuf
      → MaintenanceState
      → Exec (PersistFailure IoError) S (Unit {0})
  unfolding persist_bytes
  write_state_atomically_with no_parent to_vec path state =
      write_encoded no_parent path (to_vec state)

unfoldable pub write_state_atomically :
    {S Bytes Handle IoError : Type 0}
    → Disk S Bytes Handle IoError
    → (MaintenanceState → Result IoError Bytes)
    → PathBuf
    → MaintenanceState
    → Exec (PersistFailure IoError) S (Unit {0})
unfolding write_state_atomically_with create_staging_file
write_state_atomically disk =
    write_state_atomically_with (real_state_filesystem disk) disk.no_parent
