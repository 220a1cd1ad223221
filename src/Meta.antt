-- ===== src/Meta.antt =====
-- The package `meta`: YANG definitions.
pub mod Feature
pub mod Range
pub mod Mixin
pub mod Defs
pub mod Deviation
pub mod Index
pub mod Compile
mod Tests
