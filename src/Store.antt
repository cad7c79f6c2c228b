-- ===== src/Store.antt =====
-- store/src: the files under the Merkle mountain ranges, and what prunes them.
pub mod File
mod Log
pub mod PruneList
mod Shifts
mod Roots
mod Pruned
mod Concat
mod FileLog
mod Reading
mod Tests
