-- ===== src/Consensus.antt =====
-- core/src/consensus.rs and core/src/core/block/feijoada.rs: emission, difficulty and policies.
pub mod Emission
pub mod Retarget
pub mod Policy
mod Tests
