-- ===== src/Pool/Types.antt =====
-- pool/src/types.rs, core/src/core/block_sums.rs, and what the pool asks of the node around it.
use epic.Base.{ℕ, Bool, ◌&&◌, List, [], ◌∷◌, ◌++◌, map, length}
use epic.Base.Results.{Result, ok, ◌>>=◌, map_err}
use epic.Consensus.Emission.{ChainTypes}
use epic.Ser.{Packages, hash, write_uint, write_vec}
use epic.Committed.{Curve, same_bytes, zero_factor, to_secrets, from_slice}
use epic.Transaction.Errors.{CommittedError, keychain}
use epic.Transaction.Errors as errors
use epic.Transaction.Kernel as kernel
use epic.Transaction.Kernel.{TxKernel}
use epic.Transaction.Outputs.{hash_input, hash_output, write_input, write_output}
use epic.Transaction.Body.{Transaction, TransactionBody}
use epic.Block.Header.{BlockHeader}
use epic.Block.Checks as block

pub data PoolError : Type 0 where
  invalid_tx : errors.Error → PoolError
  invalid_block : block.Error → PoolError
  keychain_error : ℕ → PoolError
  committed_error : CommittedError → PoolError
  immature_transaction immature_coinbase dandelion_error over_capacity : PoolError
  low_fee_transaction : ℕ → PoolError
  duplicate_commitment duplicate_tx other : PoolError

pub record PoolConfig : Type 0 where
  pub accept_fee_base : ℕ
  pub max_pool_size : ℕ
  pub max_stempool_size : ℕ
  pub mineable_max_weight : ℕ

-- Names are their bytes.
pub record TxSource : Type 0 where
  pub debug_name : List ℕ
  pub identifier : List ℕ

-- A time stands in seconds.
pub record PoolEntry : Type 0 where
  pub src : TxSource
  pub tx_at : ℕ
  pub tx : Transaction

pub record BlockSums : Type 0 where
  pub utxo_sum : List ℕ
  pub kernel_sum : List ℕ

-- The traits `BlockChain` and `PoolAdapter`, which the node implements.
pub record Node : Type 0 where
  pub packages : Packages
  pub curve : Curve
  pub chain : ChainTypes
  pub verify_coinbase_maturity : Transaction → Result PoolError (Unit {0})
  pub verify_tx_lock_height : Transaction → Result PoolError (Unit {0})
  pub validate_tx : Transaction → Result PoolError (Unit {0})
  pub chain_head : Result PoolError BlockHeader
  pub get_block_sums : ℕ → Result PoolError BlockSums
  pub stem_tx_accepted : Transaction → Result PoolError (Unit {0})

module _ (p : Packages) where
  -- The hash of a transaction, whose outputs are without their range proofs.
  unfoldable pub hash_tx : Transaction → ℕ
  hash_tx tx = p.digest (
      tx.offset
      ++ (write_uint p 8 (length tx.body.inputs)
          ++ (write_uint p 8 (length tx.body.outputs)
              ++ (write_uint p 8 (length tx.body.kernels)
                  ++ (write_vec (write_input p) tx.body.inputs
                      ++ (write_vec (write_output p hash) tx.body.outputs
                          ++ write_vec (kernel.write p) tx.body.kernels))))))

  -- `PartialEq` of bodies and transactions, which compares items by their hashes.
  unfoldable pub same_body : TransactionBody → TransactionBody → Bool
  same_body a b =
      same_bytes (map (hash_input p) a.inputs) (map (hash_input p) b.inputs)
      && (same_bytes (map (hash_output p) a.outputs) (map (hash_output p) b.outputs)
          && same_bytes (map (kernel.hash p) a.kernels) (map (kernel.hash p) b.kernels))

  unfoldable pub same_tx : Transaction → Transaction → Bool
  same_tx a b = same_body a.body b.body && same_bytes a.offset b.offset

-- `Add for BlindingFactor`
unfoldable pub add_factors : Curve → List ℕ → List ℕ → Result PoolError (List ℕ)
add_factors c a b = elim (to_secrets c (a ∷ b ∷ [])) [
  | [] ↦ ok zero_factor
  | key ∷ keys ↦ map_err keychain_error (c.blind_sum (key ∷ keys) []) >>= λ sum. ok (from_slice sum)
]
