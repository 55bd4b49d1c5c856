-- ===== src/Sync/Invariant.antt =====
-- The invariant of the processes that share the lock of one clusterbom.
pub mod Defs
mod Decisions
mod Moves
mod Steps
pub mod Kept
