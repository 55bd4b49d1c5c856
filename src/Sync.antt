-- ===== src/Sync.antt =====
-- pkg/synchronize/synchronize.go: the lock on a clusterbom that controller processes share through an
-- object of the API server.
pub mod Decision
pub mod Mutex
pub mod BlockObject
pub mod System
pub mod Invariant
pub mod Exclusion
pub mod RetryTimes
