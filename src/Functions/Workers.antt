-- ===== src/Functions/Workers.antt =====
-- The workers of one controller of Functions, which share the config map of their kind.
pub mod System
pub mod Log
pub mod Service
pub mod Held
pub mod Forward
pub mod Owed
pub mod Recovery
pub mod Remaining
