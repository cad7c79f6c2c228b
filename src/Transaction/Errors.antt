-- ===== src/Transaction/Errors.antt =====
-- The errors of core/src/core/transaction.rs and core/src/core/committed.rs.
use epic.Base.{ℕ}
use epic.Ser as ser

-- `committed::Error`; the errors of secp256k1 and of the keychain stand by a number.
pub data CommittedError : Type 0 where
  keychain secp : ℕ → CommittedError
  kernel_sum_mismatch invalid_value : CommittedError

pub data Error : Type 0 where
  secp keychain lock_height : ℕ → Error
  kernel_sum_mismatch too_heavy range_proof merkle_proof invalid_proof_message : Error
  committed : CommittedError → Error
  aggregation_error cut_through invalid_output_features invalid_kernel_features : Error
  incorrect_signature : Error
  serialization : ser.Error → Error
