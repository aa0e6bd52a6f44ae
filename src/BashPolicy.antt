-- ===== src/BashPolicy.antt =====
-- cli/src/services/bash_policy.rs and cli/src/services/config/policy.rs: which shell commands an
-- agent may run. The types of both files are here. Texts are the native strings.
pub mod Shell
pub mod Normalize
pub mod Select
pub mod Evaluate
pub mod Config
use shared_context_engineeri.Common.{ℕ, String, Option, List}

pub data PolicySource : Type 0 where
  preset custom : PolicySource

pub record PolicyMatch : Type 0 where
  pub id : String
  pub message : String
  pub argv_prefix : List String
  pub satisfied_by : List (List String)
  pub source : PolicySource
  pub order : ℕ

pub record NormalizedSegment : Type 0 where
  pub argv : List String
  pub wrappers : List (List String)

pub data PolicyEvaluation : Type 0 where
  allowed : Option (List String) → PolicyEvaluation
  blocked : List String → PolicyMatch → PolicyEvaluation

pub record CustomBashPolicyEntry : Type 0 where
  pub id : String
  pub argv_prefix : List String
  pub satisfied_by : List (List String)
  pub message : String

pub record BashPolicyConfig : Type 0 where
  pub presets : List String
  pub custom : List CustomBashPolicyEntry

pub record RuntimeBashPolicyPreset : Type 0 where
  pub id : String
  pub argv_prefixes : List (List String)
  pub message : String
  pub order : ℕ
