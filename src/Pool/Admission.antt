-- ===== src/Pool/Admission.antt =====
-- `TransactionPool` of pool/src/transaction_pool.rs. A method gives the new state beside its result.
use epic.Base.{
  ℕ, ◌*◌, ◌%◌, ◌^◌, Bool, true, false, not, ◌&&◌, List, [], ◌∷◌, ◌++◌, Option, none, some, length,
  drop, ltb, if◌then◌else◌,
}
use epic.Base.Results.{Result, ok, err, ◌>>=◌, ◌>>◌, map_err}
use epic.Committed.{retain}
use epic.Transaction.Body.{Transaction, as_transaction, no_limit, fee, body_weight}
use epic.Transaction.Aggregate.{deaggregate, validate}
use epic.Block.Header.{BlockHeader}
use epic.Block.Checks.{Block}
use epic.Pool.Types.{
  PoolError, invalid_tx, duplicate_tx, over_capacity, low_fee_transaction, PoolConfig, TxSource,
  PoolEntry, Node, hash_tx, same_tx,
}
use epic.Pool.Entries.{
  contains_tx, all_transactions, all_transactions_aggregate, add_to_pool as add_to_entries,
  reconcile, reconcile_block as reconcile_entries, find_matching_transactions,
  prepare_mineable_transactions as prepare_entries,
}
use epic.Pool.Buckets.{bucket_transactions}

-- `accepted` is what `tx_accepted` of the adapter was called with, the latest first.
pub record TransactionPool : Type 0 where
  pub txpool : List PoolEntry
  pub stempool : List PoolEntry
  pub reorg_cache : List PoolEntry
  pub accepted : List Transaction

-- "deagg"
abbrev pub deagg_name : List ℕ
deagg_name = 100 ∷ 101 ∷ 97 ∷ 103 ∷ 103 ∷ []

unfoldable pub last : {A : Type 0} → List A → Option A
last [] = none
last (x ∷ []) = some x
last (x ∷ y ∷ ys) = last (y ∷ ys)

-- The loop that pops the entries before the cutoff.
unfoldable pub pop_before : ℕ → List PoolEntry → List PoolEntry
pop_before cutoff [] = []
pop_before cutoff (e ∷ cache) = if ltb e.tx_at cutoff then pop_before cutoff cache else e ∷ cache

unfoldable pub truncate_reorg_cache : ℕ → TransactionPool → TransactionPool
truncate_reorg_cache cutoff s = record s { reorg_cache = pop_before cutoff s.reorg_cache }

module _ (node : Node) (config : PoolConfig) where
  unfoldable pub is_acceptable : Transaction → Bool → TransactionPool → Result PoolError (Unit {0})
  is_acceptable tx stem s =
      let threshold = body_weight tx.body * config.accept_fee_base % 2 ^ 64 in
      if ltb config.max_pool_size (length s.txpool)
      then err over_capacity
      else if stem && ltb config.max_stempool_size (length s.stempool)
      then err over_capacity
      else if ltb config.max_pool_size (length s.txpool)
      then err over_capacity
      else if ltb 0 config.accept_fee_base && ltb (fee tx.body) threshold
      then err (low_fee_transaction threshold)
      else ok tt

  unfoldable pub add_to_stempool :
      PoolEntry → BlockHeader → TransactionPool → Result PoolError TransactionPool
  add_to_stempool entry header s =
      add_to_entries node s.stempool entry (all_transactions s.txpool) header >>= λ added.
      ok (record s { stempool = added })

  unfoldable pub add_to_reorg_cache : PoolEntry → TransactionPool → TransactionPool
  add_to_reorg_cache entry s =
      let cache = s.reorg_cache ++ entry ∷ [] in
      record s {
        reorg_cache = if ltb config.max_pool_size (length cache) then drop 1 cache else cache;
      }

  -- The entry less the transactions of the pool that are part of it.
  unfoldable pub deaggregate_entry : PoolEntry → List PoolEntry → Result PoolError PoolEntry
  deaggregate_entry entry txpool =
      if ltb 1 (length entry.tx.body.kernels)
      then elim (find_matching_transactions node txpool entry.tx.body.kernels) [
        | [] ↦ ok entry
        | t ∷ txs ↦
            map_err invalid_tx (deaggregate node.packages node.curve entry.tx (t ∷ txs)) >>= λ tx.
            (map_err invalid_tx (validate node.packages node.curve node.chain as_transaction tx)
              >> ok (record entry {
                tx = tx;
                src = record { debug_name = deagg_name; identifier = entry.src.identifier };
              }))
      ]
      else ok entry

  -- The stempool against the new state of the txpool.
  unfoldable pub reconcile_stempool :
      BlockHeader → TransactionPool → TransactionPool × Result PoolError (Unit {0})
  reconcile_stempool header s = elim (all_transactions_aggregate node s.txpool) [
    | err e ↦ (s, err e)
    | ok txpool_tx ↦ (record s { stempool = reconcile node s.stempool txpool_tx header }, ok tt)
  ]

  unfoldable pub add_to_txpool :
      PoolEntry → BlockHeader → TransactionPool → TransactionPool × Result PoolError (Unit {0})
  add_to_txpool entry header s =
      elim (deaggregate_entry entry s.txpool >>= λ e. add_to_entries node s.txpool e [] header) [
        | err e ↦ (s, err e)
        | ok added ↦ reconcile_stempool header (record s { txpool = added })
      ]

  unfoldable pub evict_from_txpool : TransactionPool → TransactionPool
  evict_from_txpool s = elim (last (bucket_transactions node no_limit s.txpool)) [
    | none ↦ s
    | some evictable ↦ record s {
      txpool = retain (λ e. not (same_tx node.packages (PoolEntry.tx e) evictable)) s.txpool;
    }
  ]

  -- `add_to_stempool`, and then the adapter: whether both went well.
  unfoldable pub try_stem : PoolEntry → BlockHeader → TransactionPool → TransactionPool × Bool
  try_stem entry header s = elim (add_to_stempool entry header s) [
    | err e ↦ (s, false)
    | ok added ↦ elim (node.stem_tx_accepted entry.tx) [
      | err e ↦ (added, false)
      | ok u ↦ (added, true)
    ]
  ]

  unfoldable pub fluff :
      PoolEntry
      → BlockHeader
      → Bool
      → TransactionPool
      → TransactionPool × Result PoolError (Unit {0})
  fluff entry header evict s =
      let added = add_to_txpool entry header s in
      elim (added.1) [
        | err e ↦ (added.0, err e)
        | ok u ↦
            let cached = add_to_reorg_cache entry (added.0) in
            let told = record cached { accepted = entry.tx ∷ cached.accepted } in
            (if evict then evict_from_txpool told else told, ok tt)
      ]

  -- What follows the checks. `evict` is false with `stem`.
  unfoldable pub admit :
      PoolEntry
      → Bool
      → BlockHeader
      → Bool
      → TransactionPool
      → TransactionPool × Result PoolError (Unit {0})
  admit entry stem header evict s =
      if stem
      then (let tried = try_stem entry header s in
          if tried.1 then (tried.0, ok tt) else fluff entry header evict (tried.0))
      else fluff entry header evict s

  unfoldable pub is_over_capacity : Result PoolError (Unit {0}) → Bool
  is_over_capacity (ok u) = false
  is_over_capacity (err e) = elim e [ over_capacity ↦ true | _ ↦ false ]

  -- The checks between the capacity and the entry.
  unfoldable pub check_tx : Transaction → Result PoolError (Unit {0})
  check_tx tx =
      map_err invalid_tx (validate node.packages node.curve node.chain as_transaction tx)
      >> node.verify_tx_lock_height tx
      >> node.verify_coinbase_maturity tx

  unfoldable pub check_and_admit :
      ℕ
      → TxSource
      → Transaction
      → Bool
      → BlockHeader
      → Bool
      → TransactionPool
      → TransactionPool × Result PoolError (Unit {0})
  check_and_admit now src tx stem header evict s = elim (check_tx tx) [
    | err e ↦ (s, err e)
    | ok u ↦ admit (record { src = src; tx_at = now; tx = tx }) stem header evict s
  ]

  -- `now` is the time of the call.
  unfoldable pub add_to_pool :
      ℕ
      → TxSource
      → Transaction
      → Bool
      → BlockHeader
      → TransactionPool
      → TransactionPool × Result PoolError (Unit {0})
  add_to_pool now src tx stem header s =
      if not stem && contains_tx node (hash_tx node.packages tx) s.txpool
      then (s, err duplicate_tx)
      else elim (is_acceptable tx stem s) [
        | ok u ↦ check_and_admit now src tx stem header false s
        | err e ↦
            if not stem && is_over_capacity (err e)
            then check_and_admit now src tx stem header true s
            else (s, err e)
      ]

  -- The loop over a copy of the cache; what fails is left out.
  unfoldable pub add_all : List PoolEntry → BlockHeader → TransactionPool → TransactionPool
  add_all [] header s = s
  add_all (e ∷ entries) header s = add_all entries header (add_to_txpool e header s).0

  unfoldable pub reconcile_reorg_cache : BlockHeader → TransactionPool → TransactionPool
  reconcile_reorg_cache header s = add_all s.reorg_cache header s

  unfoldable pub reconcile_block :
      Block → TransactionPool → TransactionPool × Result PoolError (Unit {0})
  reconcile_block block s =
      let txpool = reconcile node (reconcile_entries node s.txpool block) none block.header in
      let stempool = reconcile_entries node s.stempool block in
      reconcile_stempool block.header (record s { txpool = txpool; stempool = stempool })

  unfoldable pub prepare_mineable_transactions :
      TransactionPool → Result PoolError (List Transaction)
  prepare_mineable_transactions s = prepare_entries node s.txpool config.mineable_max_weight
