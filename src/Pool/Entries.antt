-- ===== src/Pool/Entries.antt =====
-- `Pool` of pool/src/pool.rs: the entries in the order of their insertion.
use epic.Base.{
  ℕ, Bool, true, false, not, ◌&&◌, ◌||◌, List, [], ◌∷◌, ◌++◌, map, Option, none, some, ◌==◌,
  if◌then◌else◌,
}
use epic.Base.Results.{Result, ok, err, ◌>>=◌, ◌>>◌, map_err}
use epic.Base.Signed.{to_i64}
use epic.Committed.{retain, verify_kernel_sums}
use epic.Transaction.Kernel as kernel
use epic.Transaction.Kernel.{TxKernel}
use epic.Transaction.Outputs.{Input, Output, hash_input}
use epic.Transaction.Body.{Transaction, Weighting, as_limited_transaction, no_limit, fee}
use epic.Transaction.Aggregate.{aggregate, validate}
use epic.Block.Header.{BlockHeader, hash_header}
use epic.Block.Checks.{Block}
use epic.Pool.Types.{
  PoolError, invalid_tx, committed_error, duplicate_tx, PoolEntry, BlockSums, Node, hash_tx,
  same_tx, add_factors,
}
use epic.Pool.Buckets.{bucket_transactions}

-- `iter().any`
unfoldable pub exists : {A : Type 0} → (A → Bool) → List A → Bool
exists f [] = false
exists f (x ∷ xs) = if f x then true else exists f xs

unfoldable pub all_transactions : List PoolEntry → List Transaction
all_transactions entries = map (λ e. PoolEntry.tx e) entries

module _ (node : Node) where
  unfoldable pub contains_tx : ℕ → List PoolEntry → Bool
  contains_tx h entries = exists (λ e. hash_tx node.packages (PoolEntry.tx e) == h) entries

  unfoldable pub get_tx : ℕ → List PoolEntry → Option Transaction
  get_tx h [] = none
  get_tx h (e ∷ entries) = if hash_tx node.packages e.tx == h then some e.tx else get_tx h entries

  unfoldable pub retrieve_tx_by_kernel_hash : ℕ → List PoolEntry → Option Transaction
  retrieve_tx_by_kernel_hash h [] = none
  retrieve_tx_by_kernel_hash h (e ∷ entries) =
      if exists (λ k. kernel.hash node.packages k == h) e.tx.body.kernels
      then some e.tx
      else retrieve_tx_by_kernel_hash h entries

  -- `apply_tx_to_block_sums`, with the header by its hash and its total offset.
  unfoldable pub apply_tx_to_block_sums : Transaction → ℕ → List ℕ → Result PoolError BlockSums
  apply_tx_to_block_sums tx header total_kernel_offset = do
    offset ← add_factors node.curve total_kernel_offset tx.offset
    block_sums ← node.get_block_sums header
    sums ← map_err committed_error (
        verify_kernel_sums node.curve (map (λ i. Input.commit i) tx.body.inputs)
          (block_sums.utxo_sum ∷ map (λ o. Output.commit o) tx.body.outputs)
          (block_sums.kernel_sum ∷ map (λ k. TxKernel.excess k) tx.body.kernels)
          (to_i64 (fee tx.body)) offset)
    ok (record { utxo_sum = sums.0; kernel_sum = sums.1 })

  unfoldable pub validate_raw_tx :
      Transaction → BlockHeader → Weighting → Result PoolError BlockSums
  validate_raw_tx tx header weighting = do
    map_err invalid_tx (validate node.packages node.curve node.chain weighting tx)
    node.validate_tx tx
    apply_tx_to_block_sums tx (hash_header node.packages node.chain header)
        header.total_kernel_offset

  -- The transactions that are valid on top of those before them.
  unfoldable pub validate_raw_txs :
      List Transaction
      → Option Transaction
      → List Transaction
      → BlockHeader
      → Weighting
      → Result PoolError (List Transaction)
  validate_raw_txs [] extra_tx valid_txs header weighting = ok valid_txs
  validate_raw_txs (tx ∷ txs) extra_tx valid_txs header weighting =
      let first : List Transaction = elim extra_tx [ none ↦ [] | some extra ↦ extra ∷ [] ] in
      map_err invalid_tx (aggregate node.packages node.curve (first ++ (valid_txs ++ tx ∷ [])))
      >>= λ agg_tx. elim (validate_raw_tx agg_tx header weighting) [
        | ok sums ↦ validate_raw_txs txs extra_tx (valid_txs ++ tx ∷ []) header weighting
        | err e ↦ validate_raw_txs txs extra_tx valid_txs header weighting
      ]

  unfoldable pub prepare_mineable_transactions :
      List PoolEntry → ℕ → Result PoolError (List Transaction)
  prepare_mineable_transactions entries max_weight =
      let weighting = as_limited_transaction max_weight in
      let txs = bucket_transactions node weighting entries in
      node.chain_head >>= λ header. validate_raw_txs txs none [] header weighting

  unfoldable pub all_transactions_aggregate : List PoolEntry → Result PoolError (Option Transaction)
  all_transactions_aggregate [] = ok none
  all_transactions_aggregate (e ∷ entries) = do
    tx ← map_err invalid_tx (aggregate node.packages node.curve (all_transactions (e ∷ entries)))
    map_err invalid_tx (validate node.packages node.curve node.chain no_limit tx)
    ok (some tx)

  -- The aggregate of the pool, the extra transactions and the new one.
  unfoldable pub aggregate_with : List Transaction → Transaction → Result PoolError Transaction
  aggregate_with [] tx = ok tx
  aggregate_with (t ∷ txs) tx =
      map_err invalid_tx (aggregate node.packages node.curve ((t ∷ txs) ++ tx ∷ []))

  -- The entries after `add_to_pool`.
  unfoldable pub add_to_pool :
      List PoolEntry
      → PoolEntry
      → List Transaction
      → BlockHeader
      → Result PoolError (List PoolEntry)
  add_to_pool entries entry extra_txs header =
      let txs = all_transactions entries in
      if exists (λ t. same_tx node.packages t entry.tx) txs then err duplicate_tx else (do
        agg_tx ← aggregate_with (txs ++ extra_txs) entry.tx
        validate_raw_tx agg_tx header no_limit
        ok (entries ++ entry ∷ []))

  -- The loop of `reconcile` adds again what can be added.
  unfoldable pub add_again :
      List PoolEntry → List PoolEntry → List Transaction → BlockHeader → List PoolEntry
  add_again entries [] extra_txs header = entries
  add_again entries (x ∷ existing) extra_txs header =
      let next : List PoolEntry = elim (add_to_pool entries x extra_txs header) [
        | ok added ↦ added
        | err e ↦ entries
      ] in
      add_again next existing extra_txs header

  unfoldable pub reconcile : List PoolEntry → Option Transaction → BlockHeader → List PoolEntry
  reconcile entries extra_tx header =
      add_again [] entries (elim extra_tx [ none ↦ [] | some tx ↦ tx ∷ [] ]) header

  -- The pool's transactions whose kernels all stand among the given.
  unfoldable pub is_subset : List TxKernel → List TxKernel → Bool
  is_subset [] kernels = true
  is_subset (k ∷ ks) kernels =
      exists (λ x. kernel.hash node.packages x == kernel.hash node.packages k) kernels
      && is_subset ks kernels

  unfoldable pub find_matching_transactions : List PoolEntry → List TxKernel → List Transaction
  find_matching_transactions [] kernels = []
  find_matching_transactions (e ∷ entries) kernels =
      let rest = find_matching_transactions entries kernels in
      if is_subset e.tx.body.kernels kernels then e.tx ∷ rest else rest

  -- An entry shares a kernel or an input with a block.
  unfoldable pub conflicts : Block → PoolEntry → Bool
  conflicts block e =
      exists
        (λ y.
          exists (λ k. kernel.hash node.packages k == kernel.hash node.packages y)
            block.body.kernels)
        e.tx.body.kernels
      || exists
          (λ y.
            exists (λ i. hash_input node.packages i == hash_input node.packages y)
              block.body.inputs)
          e.tx.body.inputs

  unfoldable pub reconcile_block : List PoolEntry → Block → List PoolEntry
  reconcile_block entries block = retain (λ e. not (conflicts block e)) entries
