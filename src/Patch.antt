-- ===== src/Patch.antt =====
-- cli/src/services/patch.rs: the types of a parsed patch.
pub mod Intersect
pub mod Parse
pub mod Combine
use shared_context_engineeri.Common.{ℕ, String, Option, List, Eq}

pub data FileChangeKind : Type 0 where
  added modified deleted renamed : FileChangeKind

pub data TouchedLineKind : Type 0 where
  added removed : TouchedLineKind

unfoldable pub TouchedLineKind-discrete : Discrete TouchedLineKind
TouchedLineKind-discrete = hlevel

instance abbrev pub touched_line_kind_eq : Eq TouchedLineKind
touched_line_kind_eq = record { dec = TouchedLineKind-discrete }

pub record TouchedLine : Type 0 where
  pub kind : TouchedLineKind
  pub line_number : ℕ  -- u64
  pub content : String
  pub session_id : Option String

pub record PatchHunk : Type 0 where
  pub old_start : ℕ  -- u64
  pub old_count : ℕ  -- u64
  pub new_start : ℕ  -- u64
  pub new_count : ℕ  -- u64
  pub model_id : Option String
  pub lines : List TouchedLine

pub record PatchFileChange : Type 0 where
  pub old_path : String
  pub new_path : String
  pub kind : FileChangeKind
  pub hunks : List PatchHunk

pub record ParsedPatch : Type 0 where
  pub files : List PatchFileChange
