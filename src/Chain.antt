-- ===== src/Chain.antt =====
-- chain/src: what a node asks of the header of a new block.
pub mod Difficulty
pub mod Errors
pub mod Headers
mod Conditions
mod Accepted
mod Tests
