-- ===== src/Kapp.antt =====
-- pkg/kapp: the deployer of kapp apps.
pub mod App
pub mod Pause
pub mod Cleanup
pub mod Readiness
pub mod Operations
pub mod Handlers
pub mod Replacer
pub mod ReplacerLaws
pub mod PauseLaws
pub mod CleanupLaws
pub mod ReadinessLaws
pub mod ClusterLaws
