-- ===== src/Val.antt =====
-- The package `val`: leaf values, their formats, and the conversions that make them.
pub mod Format
pub mod Dyn
pub mod Strconv
pub mod Value
pub mod Conv
pub mod Samples
mod Tests
