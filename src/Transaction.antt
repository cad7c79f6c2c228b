-- ===== src/Transaction.antt =====
-- core/src/core/transaction.rs, a module per part: kernels, inputs and outputs, bodies and
-- transactions, and what is proved of them.
pub mod Sorting
pub mod CutThrough
pub mod Errors
pub mod Kernel
pub mod Outputs
pub mod Body
pub mod Codec
pub mod RoundTrip
pub mod Validation
pub mod Reading
pub mod Aggregate
pub mod Sums
pub mod Building
pub mod Tests
