-- ===== src/MutationTrace.antt =====
-- cli/src/services/mutation_trace: the mutation-cursor protocol and what is derived from it.
pub mod Types
pub mod Equality
pub mod Attribution
pub mod Boundary
pub mod Protocol
pub mod Lineage
pub mod Window
pub mod Maintenance
