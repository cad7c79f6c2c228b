-- ===== src/Pow.antt =====
-- core/src/pow/types.rs: difficulties and proofs of work, and their bytes.
pub mod Maps
pub mod MapTrip
pub mod Proof
pub mod ProofTrip
