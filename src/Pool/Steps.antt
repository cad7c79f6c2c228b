-- ===== src/Pool/Steps.antt =====
-- The ways through `TransactionPool::add_to_pool` of pool/src/transaction_pool.rs.
use epic.Base.{ℕ, Bool, true, false, not, ◌&&◌, ◌≡◌, refl, arith, ◌⊎◌, inl, inr, Bool-cases}
use epic.Base.Results.{ok, err, Result-cases}
use epic.Transaction.Body.{Transaction}
use epic.Block.Header.{BlockHeader}
use epic.Pool.Types.{PoolError, duplicate_tx, PoolConfig, TxSource, Node, hash_tx}
use epic.Pool.Entries.{contains_tx}
use epic.Pool.Admission.{
  TransactionPool, add_to_pool, check_and_admit, is_acceptable, is_over_capacity,
}

module _ (node : Node) (config : PoolConfig) where
  -- It is refused at once, or goes on to the checks. If the txpool is over its capacity it goes on
  -- without the stem flag alone, and evicts.
  pub add_to_pool-cases :
      (now : ℕ) (src : TxSource) (tx : Transaction) (stem : Bool) (header : BlockHeader)
      (s : TransactionPool)
      → ((e : PoolError) × (add_to_pool node config now src tx stem header s ≡ (s, err e)))
        ⊎ ((evict : Bool) × (add_to_pool node config now src tx stem header s
              ≡ check_and_admit node config now src tx stem header evict s)
            × ((evict ≡ true) × (stem ≡ false) ⊎ (is_acceptable node config tx stem s ≡ ok tt)))
  unfolding add_to_pool
  add_to_pool-cases now src tx stem header s =
      elim (Bool-cases (not stem && contains_tx node (hash_tx node.packages tx) s.txpool)) [
        | inl t ↦ inl (duplicate_tx, rw (add_to_pool, t) refl)
        | inr f ↦ elim (Result-cases (is_acceptable node config tx stem s)) [
          | inr (_, r) ↦ inr (false, rw (add_to_pool, f, r) refl, inr r)
          | inl (e, r) ↦ elim (Bool-cases (not stem && is_over_capacity node config (err e))) [
            | inl t ↦ inr (true, rw (add_to_pool, f, r, t) refl, inl (refl, grind arith))
            | inr t ↦ inl (e, rw (add_to_pool, f, r, t) refl)
          ]
        ]
      ]
