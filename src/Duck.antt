-- ===== src/Duck.antt =====
-- pkg/apis/duck/v1alpha1: the Function resource, its status, its conditions and its deep copies.
pub mod Types
pub mod Lifecycle
pub mod Conditions
pub mod Readiness
pub mod Memory
pub mod DeepCopy
pub mod Copies
pub mod Structs
pub mod Contents
pub mod Isolation
pub mod SharedCount
