-- ===== src/Pool/FeeBase.antt =====
-- What the fee base of pool/src/transaction_pool.rs does when the txpool is over its capacity.
use epic.Base.{ℕ, ◌<◌, Bool, true, false, length, ◌≡◌, refl, arith, inl, inr, Bool-cases}
use epic.Base.Results.{err}
use epic.Transaction.Body.{Transaction}
use epic.Block.Header.{BlockHeader}
use epic.Pool.Types.{over_capacity, PoolConfig, TxSource, Node, hash_tx}
use epic.Pool.Entries.{contains_tx}
use epic.Pool.Admission.{
  TransactionPool, deaggregate_entry, reconcile_stempool, add_to_txpool, add_to_reorg_cache,
  add_to_stempool, evict_from_txpool, try_stem, fluff, admit, check_tx, check_and_admit,
  is_over_capacity, is_acceptable, add_to_pool,
}

module _ (node : Node) (config : PoolConfig) where
  is_acceptable-over :
      (tx : Transaction) (stem : Bool) (s : TransactionPool)
      → config.max_pool_size < length s.txpool
      → is_acceptable node config tx stem s ≡ err over_capacity
  unfolding is_acceptable
  is_acceptable-over tx stem s h = ground arith

  check_and_admit-fee_base :
      (now : ℕ) (src : TxSource) (tx : Transaction) (stem : Bool) (header : BlockHeader)
      (evict : Bool) (s : TransactionPool) (base : ℕ)
      → check_and_admit node
          (record config { accept_fee_base = base })
          now
          src
          tx
          stem
          header
          evict
          s
        ≡ check_and_admit node config now src tx stem header evict s
  unfolding check_and_admit check_tx admit try_stem add_to_stempool fluff evict_from_txpool
      add_to_reorg_cache add_to_txpool reconcile_stempool deaggregate_entry
  check_and_admit-fee_base now src tx stem header evict s base = refl

module _ (node : Node) where
  -- While the txpool holds more than its capacity, `add_to_pool` of a transaction without the stem
  -- flag is the same whatever the fee base: a fee below the threshold is not refused.
  pub add_to_pool-fee_base :
      (config : PoolConfig) (now : ℕ) (src : TxSource) (tx : Transaction) (header : BlockHeader)
      (s : TransactionPool) (base : ℕ)
      → config.max_pool_size < length s.txpool
      → add_to_pool node (record config { accept_fee_base = base }) now src tx false header s
        ≡ add_to_pool node config now src tx false header s
  unfolding add_to_pool is_over_capacity
  add_to_pool-fee_base config now src tx header s base h =
      let other : PoolConfig = record config { accept_fee_base = base } in
      let a = is_acceptable-over node config tx false s h in
      let b = is_acceptable-over node other tx false s h in
      let c = check_and_admit-fee_base node config now src tx false header true s base in
      elim (Bool-cases (contains_tx node (hash_tx node.packages tx) s.txpool)) [
        | inl t ↦ rw (add_to_pool, t) refl
        | inr t ↦ rw (add_to_pool, t, a, b, c) refl
      ]
