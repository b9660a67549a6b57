-- ===== src/Functions.antt =====
-- pkg/reconciler/functions: the reconciler of the Functions of one kind.
pub mod Steps
pub mod Config
pub mod Reconciler
pub mod Calls
pub mod Order
pub mod Status
pub mod Seen
pub mod Publishing
pub mod Kept
pub mod Marked
pub mod Judged
pub mod Causes
pub mod Given
pub mod Panicking
pub mod Total
pub mod Endings
pub mod Panicked
pub mod ConfigCauses
pub mod Reporting
pub mod Reported
pub mod Published
pub mod ServiceSync
pub mod Entries
pub mod ConfigErrors
pub mod Hosts
pub mod Tables
pub mod Writes
pub mod Workers
pub mod WriteBack
pub mod Answered
pub mod Steady
pub mod Rewrites
pub mod Adoption
