-- ===== src/StateController.antt =====
-- pkg/controllersdi/clusterbom_state_controller.go: the status of a clusterbom, computed from the
-- deploy items that belong to it.
pub mod Statistics
pub mod States
pub mod Ready
pub mod Reachable
pub mod Overall
pub mod Progress
pub mod Cleaner
pub mod Reconcile
pub mod Published
