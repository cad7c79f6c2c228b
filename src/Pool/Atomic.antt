-- ===== src/Pool/Atomic.antt =====
-- What a transaction that pool/src/transaction_pool.rs refuses leaves behind.
use mathlib.Core.List.{append-nil, map-append}
use epic.Base.{
  ℕ, Bool, true, false, List, [], ◌∷◌, ◌++◌, map, some, ◌≡◌, refl, sym, ◌∙◌, ◌⊎◌, inl, inr,
  Bool-cases,
}
use epic.Base.Results.{ok, err, ◌>>=◌, ◌>>◌, map_err, >>=-eq-ok, Result-cases}
use epic.Transaction.Body.{Transaction, no_limit}
use epic.Transaction.Aggregate.{aggregate, validate}
use epic.Block.Header.{BlockHeader}
use epic.Pool.Types.{PoolError, invalid_tx, PoolConfig, PoolEntry, TxSource, BlockSums, Node}
use epic.Pool.Entries as entries
use epic.Pool.Entries.{
  all_transactions, all_transactions_aggregate, aggregate_with, validate_raw_tx, contains_tx,
}
use epic.Pool.Admission as admission
use epic.Pool.Admission.{
  TransactionPool, deaggregate_entry, reconcile_stempool, add_to_txpool, add_to_stempool, try_stem,
  fluff, admit, check_tx, check_and_admit, is_acceptable, is_over_capacity,
}
use epic.Pool.Conflicts.{add_to_pool-ok}
use epic.Pool.Steps.{add_to_pool-cases}

module _ (node : Node) where
  aggregate_with-all :
      (es : List PoolEntry) (e : PoolEntry)
      → aggregate_with node (all_transactions es ++ []) e.tx
        ≡ map_err invalid_tx (aggregate node.packages node.curve (all_transactions (es ++ e ∷ [])))
  unfolding aggregate_with all_transactions aggregate
  aggregate_with-all [] e = refl
  aggregate_with-all (x ∷ es) e =
      rw (append-nil (map (λ y. PoolEntry.tx y) es), map-append (λ y. PoolEntry.tx y) es (e ∷ []))

  validate_raw_tx-ok :
      (tx : Transaction) (header : BlockHeader) {sums : BlockSums}
      → validate_raw_tx node tx header no_limit ≡ ok sums
      → map_err {E' = PoolError} invalid_tx
          (validate node.packages node.curve node.chain no_limit tx)
        ≡ ok tt
  unfolding validate_raw_tx
  validate_raw_tx-ok tx header e =
      let (u, v, _) =
        >>=-eq-ok (map_err invalid_tx (validate node.packages node.curve node.chain no_limit tx)) _
          e in
      v

  aggregate-added :
      (es : List PoolEntry) (e : PoolEntry)
      → all_transactions_aggregate node (es ++ e ∷ []) ≡ (do
        tx ←
            map_err invalid_tx
              (aggregate node.packages node.curve (all_transactions (es ++ e ∷ [])))
        map_err invalid_tx (validate node.packages node.curve node.chain no_limit tx)
        ok (some tx))
  unfolding all_transactions_aggregate
  aggregate-added [] e = refl
  aggregate-added (x ∷ es) e = refl

  -- What was added to the txpool is valid there.
  add_to_pool-aggregate :
      (es : List PoolEntry) (entry : PoolEntry) (header : BlockHeader) {added : List PoolEntry}
      → entries.add_to_pool node es entry [] header ≡ ok added
      → (tx : Transaction) × (all_transactions_aggregate node added ≡ ok (some tx))
  add_to_pool-aggregate es entry header {added} e =
      let (agg, sums, a, v, same) = add_to_pool-ok node es entry [] header e in
      let a' : map_err invalid_tx
            (aggregate node.packages node.curve (all_transactions (es ++ entry ∷ [])))
          ≡ ok agg =
        sym (aggregate_with-all es entry) ∙ a in
      let v' = validate_raw_tx-ok agg header v in
      (agg, rw (same, aggregate-added es entry, a', v') refl)

module _ (node : Node) (config : PoolConfig) where
  -- `add_to_txpool` that fails leaves the pools as they were.
  pub add_to_txpool-eq-err :
      (entry : PoolEntry) (header : BlockHeader) (s : TransactionPool) {e : PoolError}
      → (add_to_txpool node config entry header s).1 ≡ err e
      → (add_to_txpool node config entry header s).0 ≡ s
  unfolding add_to_txpool reconcile_stempool
  add_to_txpool-eq-err entry header s {e} failed =
      elim (Result-cases (
        deaggregate_entry node config entry s.txpool >>= λ x.
        entries.add_to_pool node s.txpool x [] header)) [
          | inl (_, r) ↦ rw (add_to_txpool, r) refl
          | inr (added, r) ↦
              let (d, _, put) = >>=-eq-ok (deaggregate_entry node config entry s.txpool) _ r in
              let (tx, agg) = add_to_pool-aggregate node s.txpool d header put in
              let next : TransactionPool = record s { txpool = added } in
              let well : (reconcile_stempool node config header next).1 ≡ ok tt =
                rw (reconcile_stempool, agg) refl in
              let ill : (reconcile_stempool node config header next).1 ≡ err e =
                rw (add_to_txpool, r) at failed in
              cc (well, ill)
        ]

  -- The pools after a transaction that is refused: those before it, but that a stem transaction may
  -- stand in the stempool.
  abbrev pub IsRefusal : PoolEntry → Bool → TransactionPool → TransactionPool → Type 0
  IsRefusal entry stem s t =
      (t.txpool ≡ s.txpool)
      × (t.reorg_cache ≡ s.reorg_cache)
      × (t.accepted ≡ s.accepted)
      × ((t.stempool ≡ s.stempool) ⊎ ((stem ≡ true) × (t.stempool ≡ s.stempool ++ entry ∷ [])))

  fluff-eq-err :
      (entry : PoolEntry) (header : BlockHeader) (evict : Bool) (s : TransactionPool)
      {e : PoolError}
      → (fluff node config entry header evict s).1 ≡ err e
      → (fluff node config entry header evict s).0 ≡ s
  unfolding fluff
  fluff-eq-err entry header evict s failed =
      elim (Result-cases (add_to_txpool node config entry header s).1) [
        | inl (_, r) ↦ rw (fluff, r) (add_to_txpool-eq-err entry header s r)
        | inr (_, r) ↦
            let well : (fluff node config entry header evict s).1 ≡ ok tt = rw (fluff, r) refl in
            cc (well, failed)
      ]

  pub try_stem-state :
      (entry : PoolEntry) (header : BlockHeader) (s : TransactionPool)
      → IsRefusal entry true s (try_stem node config entry header s).0
  unfolding try_stem add_to_stempool
  try_stem-state entry header s =
      elim (Result-cases
        (entries.add_to_pool node s.stempool entry (all_transactions s.txpool) header)) [
          | inl (_, r) ↦ rw (try_stem, add_to_stempool, r) (refl, refl, refl, inl refl)
          | inr (added, r) ↦
              let (_, _, _, _, same) =
                add_to_pool-ok node s.stempool entry (all_transactions s.txpool) header r in
              elim (Result-cases (node.stem_tx_accepted entry.tx)) [
                | inl (_, t) ↦
                    rw (try_stem, add_to_stempool, r, t) (refl, refl, refl, inr (refl, same))
                | inr (_, t) ↦
                    rw (try_stem, add_to_stempool, r, t) (refl, refl, refl, inr (refl, same))
              ]
        ]

  admit-eq-err :
      (entry : PoolEntry) (stem : Bool) (header : BlockHeader) (evict : Bool) (s : TransactionPool)
      {e : PoolError}
      → (admit node config entry stem header evict s).1 ≡ err e
      → IsRefusal entry stem s (admit node config entry stem header evict s).0
  unfolding admit
  admit-eq-err entry true header evict s {e} failed =
      elim (Bool-cases (try_stem node config entry header s).1) [
        | inl t ↦
            let well : (admit node config entry true header evict s).1 ≡ ok tt =
              rw (admit, t) refl in
            cc (well, failed)
        | inr t ↦
            let tried = (try_stem node config entry header s).0 in
            let ill : (fluff node config entry header evict tried).1 ≡ err e =
              rw (admit, t) at failed in
            let same = fluff-eq-err entry header evict tried ill in
            rw (admit, t, same) (try_stem-state entry header s)
      ]
  admit-eq-err entry false header evict s failed =
      let same = fluff-eq-err entry header evict s failed in rw same (refl, refl, refl, inl refl)

  check_and_admit-eq-err :
      (now : ℕ) (src : TxSource) (tx : Transaction) (stem : Bool) (header : BlockHeader)
      (evict : Bool) (s : TransactionPool) {e : PoolError}
      → (check_and_admit node config now src tx stem header evict s).1 ≡ err e
      → IsRefusal
          (record { src = src; tx_at = now; tx = tx })
          stem
          s
          (check_and_admit node config now src tx stem header evict s).0
  unfolding check_and_admit
  check_and_admit-eq-err now src tx stem header evict s {e} failed =
      elim (Result-cases (check_tx node config tx)) [
        | inl (_, r) ↦ rw (check_and_admit, r) (refl, refl, refl, inl refl)
        | inr (_, r) ↦
            let entry : PoolEntry = record { src = src; tx_at = now; tx = tx } in
            let ill : (admit node config entry stem header evict s).1 ≡ err e =
              rw (check_and_admit, r) at failed in
            rw (check_and_admit, r) (admit-eq-err entry stem header evict s ill)
      ]

  -- A transaction that `add_to_pool` refuses, for whatever reason, leaves the txpool, the reorg cache
  -- and what the adapter was told as they were, and the stempool too, but that a transaction with the
  -- stem flag may have been added at the stempool's end.
  pub add_to_pool-eq-err :
      (now : ℕ) (src : TxSource) (tx : Transaction) (stem : Bool) (header : BlockHeader)
      (s : TransactionPool) {e : PoolError}
      → (admission.add_to_pool node config now src tx stem header s).1 ≡ err e
      → IsRefusal
          (record { src = src; tx_at = now; tx = tx })
          stem
          s
          (admission.add_to_pool node config now src tx stem header s).0
  add_to_pool-eq-err now src tx stem header s {e} failed =
      elim (add_to_pool-cases node config now src tx stem header s) [
        | inl (_, r) ↦ rw r (refl, refl, refl, inl refl)
        | inr (evict, r, _) ↦
            let ill : (check_and_admit node config now src tx stem header evict s).1 ≡ err e =
              rw r at failed in
            rw r (check_and_admit-eq-err now src tx stem header evict s ill)
      ]
