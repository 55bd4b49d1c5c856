-- ===== src/StateController/Ready.antt =====
-- `computeClusterBomReadyCondition` and `adaptConditionStatus`.
mod Defs
pub mod Verdict
pub mod Sound
unfoldable pub use Defs.*
