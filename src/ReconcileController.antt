-- ===== src/ReconcileController.antt =====
-- pkg/controllersdi/reconcile_controller.go: the loop that marks all clusterboms for a reconcile and cleans
-- up, under a lock in a config map.
pub mod Calls
pub mod Lock
pub mod Cleanup
pub mod Loop
pub mod Laws
