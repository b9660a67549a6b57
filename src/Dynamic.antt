-- ===== src/Dynamic.antt =====
-- pkg/dynamic: listers and informers for the resources of any kind.
pub mod Lister
pub mod Factory
pub mod Shim
pub mod Started
pub mod Reached
pub mod Watched
pub mod Context
