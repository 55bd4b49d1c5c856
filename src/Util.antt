-- ===== src/Util.antt =====
-- pkg/util: the helpers of the controllers.
pub mod Text
pub mod Condition
pub mod Keys
pub mod Objects
pub mod Requeue
pub mod Backoff
pub mod KeyRoundTrip
pub mod ObjectLaws
pub mod RepeatLaws
