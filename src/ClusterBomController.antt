-- ===== src/ClusterBomController.antt =====
-- pkg/controllersdi/clusterbom_controller.go and clusterbom_deactivator.go, with the operations on deploy
-- items, secrets and the status of a clusterbom in controller_util.go.
pub mod Deactivator
pub mod Confirmed
pub mod Convergence
pub mod Calls
pub mod Secrets
pub mod Items
pub mod BomStatus
pub mod Handlers
pub mod CopyLaws
pub mod Settled
pub mod SecondPass
pub mod Guards
pub mod Errors
