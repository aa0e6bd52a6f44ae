-- ===== src/MutationTrace/Maintenance/Atomic.antt =====
-- The write of the maintenance state takes the place of the file at once, or not at all.
use mathlib.Core.Path.{subst}
use shared_context_engineeri.Common.{
  ℕ, zero, suc, ◌+◌, ◌≡◌, ◌≢◌, refl, sym, Option, none, some, ◌∷◌,
}
use shared_context_engineeri.Common.Result.{Result, ok}
use shared_context_engineeri.Common.Exec.{pure, ◌>>◌}
use shared_context_engineeri.Common.Exec.Errors.{
  Post, Ends, catch, Ends-bind, Ends-catch, Ends-map_err, Ends-err_of, Ends-if, Ends-weaken,
}
use shared_context_engineeri.MutationTrace.Maintenance.{MaintenanceState}
use mathlib.Core.Path.{subst}
use shared_context_engineeri.MutationTrace.Maintenance.Files.{
  write_encoded, Disk, create_candidates, create_staging_file, staging_attempts,
  real_state_filesystem, stage, write_staging, sync_staging, rename, PersistPhase, discard, confirm,
  persist_bytes, write_state_atomically_with, write_state_atomically, PersistFailure, not_applied,
  durability_uncertain, open_parent_directory, sync_parent_directory, create_staging, PathBuf,
  state_path, sce_runtime_dir, staging_name,
}
use shared_context_engineeri.MutationTrace.Maintenance.Documented.{staging-distinct, IsDocumented}

module _ {S Bytes Handle IoError : Type 0} {disk : Disk S Bytes Handle IoError}
    {content : S → PathBuf → Option Bytes} {empty : Bytes} (laws : IsDocumented disk content empty)
    (git_dir : PathBuf) where
  abbrev pub path : PathBuf
  path = state_path git_dir

  -- the file of the state holds `c`
  abbrev pub Holds : Option Bytes → S → Type 0
  Holds c s = content s path ≡ c

  -- a new empty file beside it
  abbrev IsFresh : Option Bytes → PathBuf → S → Type 0
  IsFresh c p s = (path ≢ p) × (Holds c s × (content s p ≡ some empty))

  create_new-IsFresh :
      (c : Option Bytes) (p : PathBuf)
      → path ≢ p
      → Ends (Holds c) (disk.create_new p >> pure p) (IsFresh c) (λ _. Holds c)
  create_new-IsFresh c p n =
      Ends-bind (laws.create_empty p path c n) λ _. record { at = λ s h. (n, h) }

  create_candidates-IsFresh :
      (c : Option Bytes) (count attempt epoch_nanos : ℕ)
      → Ends
          (Holds c)
          (create_candidates disk count attempt (sce_runtime_dir ∷ git_dir) epoch_nanos)
          (IsFresh c)
          (λ _. Holds c)
  unfolding create_candidates
  create_candidates-IsFresh c zero attempt epoch_nanos = record { at = λ s h. h }
  create_candidates-IsFresh c (suc count) attempt epoch_nanos =
      Ends-catch
        (create_new-IsFresh c
          (staging_name epoch_nanos disk.process_id attempt ∷ sce_runtime_dir ∷ git_dir)
          (staging-distinct git_dir epoch_nanos disk.process_id attempt))
        λ e.
          Ends-if (disk.is_already_exists e)
            (create_candidates-IsFresh c count (attempt + 1) epoch_nanos) (record { at = λ s h. h })

  create_staging_file-IsFresh :
      (c : Option Bytes)
      → Ends
          (Holds c)
          (create_staging_file disk (sce_runtime_dir ∷ git_dir))
          (IsFresh c)
          (λ _. Holds c)
  unfolding create_staging_file
  create_staging_file-IsFresh c =
      Ends-bind (laws.nanos_leaves (λ f. f path ≡ c))
        (create_candidates-IsFresh c staging_attempts 0)

  sync_data-Holds :
      (c : Option Bytes) (staging : PathBuf) (b : Bytes)
      → Ends
          (λ s. Holds c s × (content s staging ≡ some b))
          (disk.sync_data staging)
          (λ _ s. Holds c s × (content s staging ≡ some b))
          (λ _. Holds c)
  sync_data-Holds c staging b =
      Ends-weaken (laws.sync_leaves staging λ f. (f path ≡ c) × (f staging ≡ some b)) λ e s h. h.0

  stage-Holds :
      (c : Option Bytes) (staging : PathBuf) (b : Bytes)
      → path ≢ staging
      → Ends
          (λ s. Holds c s × (content s staging ≡ some empty))
          (stage (real_state_filesystem disk) staging path b)
          (λ _. Holds (some b))
          (λ _. Holds c)
  unfolding stage create_staging_file
  stage-Holds c staging b n =
      Ends-bind
        (Ends-bind (Ends-map_err (λ e. (write_staging, e)) (laws.write_fresh staging path c b n))
          λ _. Ends-map_err (λ e. (sync_staging, e)) (sync_data-Holds c staging b))
        λ _. Ends-map_err (λ e. (rename, e)) (laws.rename_moves staging path c b n)

  -- what is said of the file after a failure: the old content `c`, or the new one
  abbrev pub After : Option Bytes → Bytes → PersistFailure IoError → S → Type 0
  After c b (not_applied _ _ _) = Holds c
  After c b (durability_uncertain _ _) = Holds (some b)

  discard-Holds :
      (c : Option Bytes) (b : Bytes) (staging : PathBuf) (failure : PersistPhase × IoError)
      → path ≢ staging
      → Ends
          (Holds c)
          (discard (real_state_filesystem disk) staging failure)
          (λ _. Holds (some b))
          (After c b)
  unfolding discard create_staging_file
  discard-Holds c b staging failure n =
      Ends-bind (Ends-err_of (laws.remove_leaves staging path c n)) λ _. record { at = λ s h. h }

  confirm-Holds :
      (c : Option Bytes) (b : Bytes)
      → Ends
          (Holds (some b))
          (confirm (real_state_filesystem disk) (sce_runtime_dir ∷ git_dir))
          (λ _. Holds (some b))
          (After c b)
  unfolding confirm create_staging_file
  confirm-Holds c b =
      Ends-bind
        (Ends-map_err (durability_uncertain open_parent_directory)
          (laws.open_leaves (sce_runtime_dir ∷ git_dir) λ f. f path ≡ some b))
        λ handle.
          Ends-map_err (durability_uncertain sync_parent_directory)
            (laws.sync_all_leaves handle λ f. f path ≡ some b)

  -- the staged file, or after a failure the file as it was
  replace-Holds :
      (c : Option Bytes) (b : Bytes) (staging : PathBuf)
      → Ends
          (IsFresh c staging)
          (catch
            (stage (real_state_filesystem disk) staging path b)
            (discard (real_state_filesystem disk) staging))
          (λ _. Holds (some b))
          (After c b)
  replace-Holds c b staging = record {
    at = λ s h.
        (Ends-catch (stage-Holds c staging b h.0)
            λ failure. discard-Holds c b staging failure h.0).at
          s h.1;
  }

  pub persist_bytes-Holds :
      (c : Option Bytes) (b : Bytes)
      → Ends
          (Holds c)
          (persist_bytes (real_state_filesystem disk) path (sce_runtime_dir ∷ git_dir) b)
          (λ _. Holds (some b))
          (After c b)
  unfolding persist_bytes create_staging_file
  persist_bytes-Holds c b =
      Ends-bind
        (Ends-map_err (λ e. not_applied create_staging e none) (create_staging_file-IsFresh c))
        λ staging. Ends-bind (replace-Holds c b staging) λ _. confirm-Holds c b

-- If the calls of the disk do what is documented of them and the state has a JSON form, then after a
-- write of the state that succeeds, or fails with an uncertain durability, the file holds exactly that
-- form, and after one that fails with nothing applied it holds what it held.
pub write_state_atomically-After :
    {S Bytes Handle IoError : Type 0} (disk : Disk S Bytes Handle IoError)
    (content : S → PathBuf → Option Bytes) (empty : Bytes) (laws : IsDocumented disk content empty)
    (to_vec : MaintenanceState → Result IoError Bytes) (git_dir : PathBuf)
    (state : MaintenanceState) (b : Bytes) (s : S)
    → to_vec state ≡ ok b
    → Post
        (λ _. Holds laws git_dir (some b))
        (After laws git_dir (content s (state_path git_dir)) b)
        (write_state_atomically disk to_vec (state_path git_dir) state s)
unfolding write_state_atomically write_state_atomically_with persist_bytes create_staging_file
write_state_atomically-After disk content empty laws to_vec git_dir state b s e =
    subst
      (λ r.
        Post (λ _. Holds laws git_dir (some b))
          (After laws git_dir (content s (state_path git_dir)) b)
          (write_encoded (real_state_filesystem disk) disk.no_parent (state_path git_dir) r s))
      (sym e) ((persist_bytes-Holds laws git_dir (content s (state_path git_dir)) b).at s refl)
