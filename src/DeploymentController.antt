-- ===== src/DeploymentController.antt =====
-- pkg/controllersdi/deployment_controller.go: the controller that has deploy items processed.
pub mod Deactivator
pub mod Finalizers
pub mod StatusUpdate
pub mod Reconcile
pub mod Laws
pub mod Guards
