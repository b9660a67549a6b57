-- ===== src/Crds.antt =====
-- pkg/reconciler/crds: the reconciler of the definitions of the kinds of Functions.
pub mod Reconciler
pub mod Order
pub mod Services
pub mod Bootstrap
pub mod Provided
pub mod Refused
pub mod Total
pub mod Unprovided
pub mod Endings
pub mod Agreement
pub mod Race
pub mod Alongside
pub mod Behind
pub mod Kept
pub mod Repaired
