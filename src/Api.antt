-- ===== src/Api.antt =====
-- The data types of api/v1, and what the code uses of the types of Kubernetes and the landscaper.
mod Meta
mod Status
mod Bom
mod Item
pub use Meta.*
pub use Status.*
pub use Bom.*
pub use Item.*
