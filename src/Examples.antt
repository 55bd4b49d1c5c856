-- ===== src/Examples.antt =====
-- Concrete inputs, and the theorems applied to them.
mod Data
mod Lock
mod States
mod Items
mod Small
mod Deactivation
mod Boms
mod BomGuards
mod Loops
mod Reviews
mod Published
mod Apps
