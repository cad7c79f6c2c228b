-- ===== src/Pool.antt =====
-- pool/src: the transaction pool and the stempool.
pub mod Types
pub mod Entries
pub mod Buckets
pub mod Admission
mod Sorted
mod Conflicts
mod Steps
mod Atomic
mod Capacity
mod FeeBase
mod Tests
