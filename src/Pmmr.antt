-- ===== src/Pmmr.antt =====
-- core/src/core/pmmr: the prunable Merkle mountain range.
pub mod Index
pub mod Backend
pub mod Range
pub mod Proof
mod Tests
mod RangeTests
