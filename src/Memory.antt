-- ===== src/Memory.antt =====
-- internal/memory: the in-memory store.
pub mod State
pub mod Targets
pub mod Inbound
pub mod Unique
pub mod Entries
pub mod Reach
pub mod Operations
pub mod Cases
pub mod Mirror
pub mod Removal
pub mod Uniqueness
pub mod Versions
pub mod Cycles
pub mod Chains
pub mod Acyclic
pub mod Query
pub mod Evaluator
pub mod Reachable
