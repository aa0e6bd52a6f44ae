-- ===== src/MutationTrace/Maintenance/Documented.antt =====
-- What is documented of the calls of the disk that the write of the maintenance state makes, and that
-- a staging file is not the state file.
use Prim.Native.Char.{code}
use Prim.Native.String as Text
use Prim.Native.String.append as Append
use shared_context_engineeri.Common.{
  ℕ, ◌≡◌, ◌≢◌, ap, ◌∙◌, String, Option, none, some, [], ◌∷◌, arith,
}
use shared_context_engineeri.Common.Exec.Errors.{Ends, Leaves}
use shared_context_engineeri.MutationTrace.Maintenance.Files.{
  Disk, PathBuf, state_path, sce_runtime_dir, staging_name, maintenance_state_file,
}

abbrev first_char : String → Option ℕ
first_char Text.[] = none
first_char (Text.◌∷◌ c s) = some (code c)

-- A staging file is not the state file.
staging_name-distinct :
    (epoch_nanos process attempt : ℕ)
    → maintenance_state_file ≢ staging_name epoch_nanos process attempt
unfolding staging_name
staging_name-distinct epoch_nanos process attempt e =
    absurd (ground (arith, ap first_char (e ∙ Append.cons _ _ _)))

abbrev file_name : PathBuf → String
file_name [] = ""
file_name (name ∷ _) = name

pub staging-distinct :
    (git_dir : PathBuf) (epoch_nanos process attempt : ℕ)
    → state_path git_dir ≢ staging_name epoch_nanos process attempt ∷ sce_runtime_dir ∷ git_dir
staging-distinct git_dir epoch_nanos process attempt e =
    staging_name-distinct epoch_nanos process attempt (ap file_name e)

module _ {S Bytes Handle IoError : Type 0} (disk : Disk S Bytes Handle IoError)
    (content : S → PathBuf → Option Bytes) (empty : Bytes) where
  -- What is documented of the calls of the disk: `content` is what a path holds, and what it holds
  -- changes only for the paths of a call. A new file is empty, a write that works puts the bytes in
  -- it, and a rename that works, and only that, replaces the file at its target.
  pub record IsDocumented : Type 1 where
    pub nanos_leaves :
        (P : (PathBuf → Option Bytes) → Type 0) → Leaves (λ s. P (content s)) disk.epoch_nanos
    pub create_empty :
        (q p : PathBuf) (c : Option Bytes)
        → p ≢ q
        → Ends
            (λ s. content s p ≡ c)
            (disk.create_new q)
            (λ _ s. (content s p ≡ c) × (content s q ≡ some empty))
            (λ _ s. content s p ≡ c)
    pub write_fresh :
        (q p : PathBuf) (c : Option Bytes) (b : Bytes)
        → p ≢ q
        → Ends
            (λ s. (content s p ≡ c) × (content s q ≡ some empty))
            (disk.write_all q b)
            (λ _ s. (content s p ≡ c) × (content s q ≡ some b))
            (λ _ s. content s p ≡ c)
    pub sync_leaves :
        (q : PathBuf) (P : (PathBuf → Option Bytes) → Type 0)
        → Leaves (λ s. P (content s)) (disk.sync_data q)
    pub rename_moves :
        (q p : PathBuf) (c : Option Bytes) (b : Bytes)
        → p ≢ q
        → Ends
            (λ s. (content s p ≡ c) × (content s q ≡ some b))
            (disk.rename_file q p)
            (λ _ s. content s p ≡ some b)
            (λ _ s. content s p ≡ c)
    pub open_leaves :
        (q : PathBuf) (P : (PathBuf → Option Bytes) → Type 0)
        → Leaves (λ s. P (content s)) (disk.open_file q)
    pub sync_all_leaves :
        (handle : Handle) (P : (PathBuf → Option Bytes) → Type 0)
        → Leaves (λ s. P (content s)) (disk.sync_all handle)
    pub remove_leaves :
        (q p : PathBuf) (c : Option Bytes)
        → p ≢ q
        → Leaves (λ s. content s p ≡ c) (disk.remove_file q)
