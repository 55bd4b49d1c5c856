-- ===== src/Deploy.antt =====
-- pkg/deployutil: states, readiness of resources, and the data of a deploy item.
pub mod WorseState
pub mod DeployData
pub mod ErrorHistory
pub mod ItemCondition
pub mod Client
pub mod ExportSecrets
pub mod ErrorBounds
pub mod MergeMaps
pub mod MergePaths
pub mod Readiness
pub mod ReadinessLaws
pub mod WorsifyLaws
pub mod Target
pub mod Requirements
