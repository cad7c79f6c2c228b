-- ===== src/Block.antt =====
-- core/src/core/block.rs: headers, blocks and their checks.
pub mod Header
pub mod Checks
mod Parts
pub mod Valid
pub mod HeaderTrip
pub mod BlockTrip
pub mod Tests
