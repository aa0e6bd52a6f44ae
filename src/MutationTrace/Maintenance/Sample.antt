-- ===== src/MutationTrace/Maintenance/Sample.antt =====
-- A disk of which every call may fail, and what is documented of it.
use shared_context_engineeri.Common.{
  ◌≡◌, ◌≢◌, refl, ◌∙◌, String, Bool, true, false, Option, none, some, List, [], ◌∷◌,
  String-discrete,
}
use shared_context_engineeri.Common.Result.{Result, ok, err}
use shared_context_engineeri.Common.Exec.{Exec}
use shared_context_engineeri.Common.Exec.Errors.{Ends, Post}
use shared_context_engineeri.MutationTrace.Maintenance.Files.{PathBuf, Disk}
use shared_context_engineeri.MutationTrace.Maintenance.Documented.{IsDocumented}

-- the files, and whether the calls to come work: each takes the next fate, and works if none is left
pub record DiskState : Type 0 where
  pub files : PathBuf → Option String
  pub fates : List Bool

abbrev next_fate : List Bool → Bool
next_fate [] = true
next_fate (fate ∷ _) = fate

abbrev later_fates : List Bool → List Bool
later_fates [] = []
later_fates (_ ∷ fates) = fates

unfoldable pub PathBuf-discrete : Discrete PathBuf
unfolding String-discrete
PathBuf-discrete = hlevel String-discrete

abbrev pub with_file : PathBuf → Option String → (PathBuf → Option String) → PathBuf → Option String
with_file p content files q = elim (PathBuf-discrete q p) [ yes _ ↦ content | no _ ↦ files q ]

-- the outcome of a call, by its fate
abbrev fated :
    {A : Type 0} → Bool → A → (PathBuf → Option String) → DiskState → Result String A × DiskState
fated true a files s = (ok a, record s { files = files; fates = later_fates s.fates })
fated false a files s = (err "failed", record s { fates = later_fates s.fates })

abbrev call :
    {A : Type 0}
    → A
    → ((PathBuf → Option String) → PathBuf → Option String)
    → Exec String DiskState A
call a change s = fated (next_fate s.fates) a (change s.files) s

unfoldable pub disk : Disk DiskState String (Unit {0}) String
unfolding PathBuf-discrete
disk = record {
  epoch_nanos = call 1700000000 λ files. files;
  process_id = 42;
  create_new = λ p. call tt (with_file p (some ""));
  write_all = λ p b. call tt (with_file p (some b));
  sync_data = λ p. call tt λ files. files;
  rename_file = λ from to. call tt λ files. with_file to (files from) (with_file from none files);
  open_file = λ p. call tt λ files. files;
  sync_all = λ _. call tt λ files. files;
  remove_file = λ p. call tt (with_file p none);
  is_already_exists = λ _. false;
  exhausted = "exhausted";
  no_parent = "no parent";
}

fated-Post :
    {A : Type 0} (works : Bool) (a : A)
    (change : (PathBuf → Option String) → PathBuf → Option String)
    (P Q F : (PathBuf → Option String) → Type 0) (s : DiskState)
    → Q (change s.files) × F s.files
    → Post (λ _ t. Q t.files) (λ _ t. F t.files) (fated works a (change s.files) s)
fated-Post true a change P Q F s (q, f) = q
fated-Post false a change P Q F s (q, f) = f

call-Ends :
    {A : Type 0} (a : A) (change : (PathBuf → Option String) → PathBuf → Option String)
    (P Q F : (PathBuf → Option String) → Type 0)
    → ((files : PathBuf → Option String) → P files → Q (change files) × F files)
    → Ends (λ s. P s.files) (call a change) (λ _ s. Q s.files) (λ _ s. F s.files)
call-Ends a change P Q F h = record {
  at = λ s p. fated-Post (next_fate s.fates) a change P Q F s (h s.files p);
}

with_file-same :
    (p : PathBuf) (c : Option String) (files : PathBuf → Option String) → with_file p c files p ≡ c
with_file-same p c files =
    elim (PathBuf-discrete p p) as (λ d. elim d [ yes _ ↦ c | no _ ↦ files p ] ≡ c) [
      | yes _ ↦ refl
      | no n ↦ absurd (n refl)
    ]

with_file-other :
    (p q : PathBuf) (c : Option String) (files : PathBuf → Option String)
    → q ≢ p
    → with_file p c files q ≡ files q
with_file-other p q c files n =
    elim (PathBuf-discrete q p) as (λ d. elim d [ yes _ ↦ c | no _ ↦ files q ] ≡ files q) [
      | yes e ↦ absurd (n e)
      | no _ ↦ refl
    ]

pub disk-IsDocumented : IsDocumented disk (λ s. s.files) ""
unfolding disk
disk-IsDocumented = record {
  nanos_leaves = λ P. call-Ends 1700000000 (λ files. files) P P P λ files h. (h, h);
  create_empty = λ q p c n.
      call-Ends tt (with_file q (some "")) (λ f. f p ≡ c) (λ f. (f p ≡ c) × (f q ≡ some ""))
        (λ f. f p ≡ c)
        λ files h.
          ((with_file-other q p (some "") files n ∙ h, with_file-same q (some "") files), h);
  write_fresh = λ q p c b n.
      call-Ends tt (with_file q (some b)) (λ f. (f p ≡ c) × (f q ≡ some ""))
        (λ f. (f p ≡ c) × (f q ≡ some b)) (λ f. f p ≡ c)
        λ files h.
          ((with_file-other q p (some b) files n ∙ h.0, with_file-same q (some b) files), h.0);
  sync_leaves = λ q P. call-Ends tt (λ files. files) P P P λ files h. (h, h);
  rename_moves = λ q p c b n.
      call-Ends tt (λ files. with_file p (files q) (with_file q none files))
        (λ f. (f p ≡ c) × (f q ≡ some b)) (λ f. f p ≡ some b) (λ f. f p ≡ c)
        λ files h. (with_file-same p (files q) (with_file q none files) ∙ h.1, h.0);
  open_leaves = λ q P. call-Ends tt (λ files. files) P P P λ files h. (h, h);
  sync_all_leaves = λ _ P. call-Ends tt (λ files. files) P P P λ files h. (h, h);
  remove_leaves = λ q p c n.
      call-Ends tt (with_file q none) (λ f. f p ≡ c) (λ f. f p ≡ c) (λ f. f p ≡ c)
        λ files h. (with_file-other q p none files n ∙ h, h);
}
