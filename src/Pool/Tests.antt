-- ===== src/Pool/Tests.antt =====
-- A pool of a few transactions on sums and a chain that compute, and the theorems at it.
use epic.Base.{
  ℕ, map, ◌+◌, ◌≡◌, refl, arith, true, false, List, [], ◌∷◌, length, leb, if◌then◌else◌,
}
use epic.Base.Results.{ok, err}
use epic.Consensus.Emission.{automated_testing}
use epic.Ser.{Packages}
use epic.Base.Predicates.{All}
use epic.Committed.{Curve}
use epic.Transaction.Body.{Transaction}
use epic.Transaction.Tests.{payment, payment_on}
use epic.Transaction.Body as body
use epic.Transaction.Outputs as outputs
use epic.Transaction.Kernel as kernel
use epic.Transaction.Aggregate as aggregate
use epic.Transaction.CutThrough as cutting
use epic.Transaction.Sorting as sorting
use epic.Committed as committed
use epic.Ser as ser
use epic.Pool.Types as types
use epic.Pool.Entries as entries
use epic.Pool.Admission as admission
use epic.Block.Tests.{first_header}
use epic.Block.Checks.{Block}
use epic.Pool.Types.{
  immature_transaction, PoolError, PoolConfig, TxSource, PoolEntry, BlockSums, Node,
}
use epic.Pool.Admission.{TransactionPool, add_to_pool, reconcile_block}
use epic.Pool.Conflicts.{Apart, reconcile_block-Apart}
use epic.Pool.Capacity.{IsWithin, add_to_pool-IsWithin}
use epic.Pool.FeeBase.{add_to_pool-fee_base}
use epic.Pool.Atomic.{IsRefusal, add_to_pool-eq-err}

unfoldable sum : List ℕ → ℕ
sum [] = 0
sum (x ∷ xs) = x + sum xs

abbrev light : Packages
light = record { put_uint = λ w n. n ∷ []; get_uint = sum; digest = sum }

-- Each sum is the same.
abbrev level_curve : Curve
level_curve = record {
  commit_sum = λ positive negative. ok (1 ∷ []);
  commit = λ value key. ok (1 ∷ []);
  commit_value = λ value. ok (1 ∷ []);
  commit_to_zero_value = 0 ∷ [];
  blind_sum = λ positive negative. ok (1 ∷ []);
  secret_key_from_slice = λ bytes. ok bytes;
  to_pubkey = λ bytes. ok bytes;
  verify_single = λ sig msg key. true;
  verify_bullet_proof_multi = λ commits proofs. ok tt;
}

-- A chain that takes one kernel alone.
abbrev small_node : Node
small_node = record {
  packages = light;
  curve = level_curve;
  chain = automated_testing;
  verify_coinbase_maturity = λ tx. ok tt;
  verify_tx_lock_height = λ tx. ok tt;
  validate_tx = λ tx. if leb (length tx.body.kernels) 1 then ok tt else err immature_transaction;
  chain_head = ok first_header;
  get_block_sums = λ h. ok (record { utxo_sum = 1 ∷ []; kernel_sum = 1 ∷ [] });
  stem_tx_accepted = λ tx. ok tt;
}

abbrev small_config : PoolConfig
small_config = record {
  accept_fee_base = 0;
  max_pool_size = 1;
  max_stempool_size = 1;
  mineable_max_weight = 1000;
}

abbrev full_config : PoolConfig
full_config = record small_config { max_pool_size = 0 }

abbrev source : TxSource
source = record { debug_name = 116 ∷ []; identifier = 49 ∷ [] }

abbrev entry_of : Transaction → PoolEntry
entry_of tx = record { src = source; tx_at = 7; tx = tx }

abbrev one_entry : TransactionPool
one_entry = record {
  txpool = entry_of payment ∷ [];
  stempool = [];
  reorg_cache = [];
  accepted = [];
}

refused :
    (add_to_pool small_node small_config 8 source payment_on true first_header one_entry).1
    ≡ err immature_transaction
unfolding admission.add_to_pool admission.is_acceptable admission.check_and_admit admission.check_tx
    admission.admit admission.try_stem admission.add_to_stempool admission.fluff
    admission.add_to_txpool admission.deaggregate_entry entries.contains_tx entries.exists
    entries.add_to_pool entries.all_transactions entries.aggregate_with entries.validate_raw_tx
    types.hash_tx types.same_tx types.same_body aggregate.validate aggregate.validate_in_full
    aggregate.verify_proofs aggregate.batch_verify_proofs aggregate.verify_kernels
    aggregate.verify_kernel aggregate.has_wrong_features aggregate.aggregate
    aggregate.aggregate_many aggregate.append_all body.validate_body body.verify_weight
    body.max_weight body.body_weight_as_block body.weight_as_block body.body_weight body.weight
    body.verify_sorted body.verify_cut_through body.merge_hashes body.verify_features
    body.verify_output_features body.verify_kernel_features body.any body.new body.init
    body.sort_body body.empty_body body.with_offset body.fee body.fee_from
    ser.verify_sorted_and_unique ser.write_uint ser.write_vec outputs.hash_input outputs.hash_output
    outputs.write_input outputs.write_output outputs.write_features outputs.as_u8
    outputs.is_coinbase outputs.is_coinbase_output kernel.hash kernel.write kernel.write_features
    kernel.as_u8 kernel.is_coinbase kernel.is_height_locked kernel.msg_to_sign kernel.kernel_sig_msg
    committed.same_bytes committed.retain committed.from_slice committed.secret_key
    committed.sum_commits committed.to_secrets committed.sum_kernel_offsets
    committed.sum_kernel_excesses committed.sum_commitments committed.verify_kernel_sums
    cutting.cut_through cutting.drain cutting.drain_both cutting.has_equal_pair cutting.cut_loop
    sorting.sort sorting.insert_sorted sum
refused = refl

add_to_pool-eq-err_example :
    IsRefusal small_node small_config
      (record { src = source; tx_at = 8; tx = payment_on })
      true
      one_entry
      (add_to_pool small_node small_config 8 source payment_on true first_header one_entry).0
add_to_pool-eq-err_example =
    add_to_pool-eq-err small_node small_config 8 source payment_on true first_header one_entry
      refused

add_to_pool-IsWithin_example :
    IsWithin small_node small_config
      (add_to_pool small_node small_config 8 source payment_on false first_header one_entry).0
add_to_pool-IsWithin_example =
    add_to_pool-IsWithin small_node small_config 8 source payment_on false first_header one_entry
      (omega arith)

add_to_pool-fee_base_example :
    add_to_pool small_node
      (record full_config { accept_fee_base = 1_000_000 })
      8
      source
      payment_on
      false
      first_header
      one_entry
    ≡ add_to_pool small_node full_config 8 source payment_on false first_header one_entry
add_to_pool-fee_base_example =
    add_to_pool-fee_base small_node full_config 8 source payment_on first_header one_entry 1_000_000
      (omega arith)

abbrev spending_block : Block
spending_block = record { header = first_header; body = payment.body }

reconcile_block-Apart_example :
    All
      (λ e.
        Apart
          (map (kernel.hash light) (PoolEntry.tx e).body.kernels)
          (map (kernel.hash light) spending_block.body.kernels)
        × Apart
            (map (outputs.hash_input light) (PoolEntry.tx e).body.inputs)
            (map (outputs.hash_input light) spending_block.body.inputs))
      (reconcile_block small_node small_config spending_block one_entry).0.txpool
reconcile_block-Apart_example =
    reconcile_block-Apart small_node small_config spending_block one_entry
