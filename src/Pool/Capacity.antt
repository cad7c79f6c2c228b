-- ===== src/Pool/Capacity.antt =====
-- The size of the txpool under `add_to_pool` of pool/src/transaction_pool.rs.
use epic.Base.{
  ℕ, suc, ◌≤◌, ◌<◌, Bool, true, false, not, List, [], ◌∷◌, none, some, length, ◌≡◌, refl, ap, subst,
  arith, ◌⊎◌, inl, inr, Bool-cases, Option-cases, length-append,
}
use epic.Base.Results.{ok, err, ◌>>=◌, >>=-eq-ok, Result-cases}
use epic.Base.Predicates.{All, All-map}
use epic.Committed.{retain, same_bytes_refl}
use epic.Transaction.Body.{Transaction, no_limit}
use epic.Block.Header.{BlockHeader}
use epic.Pool.Types.{PoolConfig, PoolEntry, TxSource, Node, same_body, same_tx}
use epic.Pool.Entries as entries
use epic.Pool.Buckets.{bucket_transactions}
use epic.Pool.Admission as admission
use epic.Pool.Admission.{
  TransactionPool, last, deaggregate_entry, reconcile_stempool, add_to_txpool, add_to_reorg_cache,
  evict_from_txpool, try_stem, fluff, admit, check_tx, check_and_admit, is_acceptable,
}
use epic.Pool.Conflicts.{add_to_pool-ok, reconcile_stempool-txpool}
use epic.Pool.Steps.{add_to_pool-cases}
use epic.Pool.Atomic.{add_to_txpool-eq-err, try_stem-state}
use epic.Pool.Sorted.{bucket_transactions-All, length-bucket_transactions}

last-All : {A : Type 0} (P : A → Type 0) (xs : List A) {x : A} → All P xs → last xs ≡ some x → P x
unfolding last
last-All P [] h e = cc
last-All P (y ∷ []) {x} h e = let same : y ≡ x = cc e in subst P same h.0
last-All P (y ∷ z ∷ xs) h e = last-All P (z ∷ xs) h.1 e

last-none : {A : Type 0} (xs : List A) → last xs ≡ none → length xs ≡ 0
unfolding last
last-none [] e = refl
last-none (y ∷ []) e = cc
last-none (y ∷ z ∷ xs) e = absurd (omega (arith, last-none (z ∷ xs) e))

length-retain : {A : Type 0} (p : A → Bool) (xs : List A) → length (retain p xs) ≤ length xs
unfolding retain
length-retain p [] = omega arith
length-retain p (x ∷ xs) = ground (arith, length-retain p xs)

module _ (node : Node) where
  same_tx_refl : (tx : Transaction) → same_tx node.packages tx tx ≡ true
  unfolding same_tx same_body
  same_tx_refl tx = rw (same_bytes_refl, same_bytes_refl, same_bytes_refl, same_bytes_refl) refl

  -- The entries other than the transaction's.
  without : Transaction → List PoolEntry → List PoolEntry
  without t es = retain (λ e. not (same_tx node.packages (PoolEntry.tx e) t)) es

  without-shorter :
      (es : List PoolEntry) → All (λ e. length (without (PoolEntry.tx e) es) < length es) es
  unfolding without retain
  without-shorter [] = tt
  without-shorter (e ∷ es) =
      let less : (t : Transaction) → length (without t es) ≤ length es =
        λ t. length-retain (λ x. not (same_tx node.packages (PoolEntry.tx x) t)) es in
      let here : length (without e.tx (e ∷ es)) < suc (length es) =
        rw (without, same_tx_refl e.tx) (omega (arith, less e.tx)) in
      let there : All (λ x. length (without (PoolEntry.tx x) (e ∷ es)) < suc (length es)) es =
        All-map (λ x h. longer x.tx h) es (without-shorter es) in
      (here, there)
    where
      longer :
          (t : Transaction)
          → length (without t es) < length es
          → length (without t (e ∷ es)) < suc (length es)
      longer t h = ground arith

  buckets_pos :
      (es : List PoolEntry) → 0 < length es → 0 < length (bucket_transactions node no_limit es)
  buckets_pos [] h = absurd (omega arith)
  buckets_pos (e ∷ es) h = length-bucket_transactions node no_limit e es

  -- Eviction takes an entry out at least.
  evict-shorter :
      (config : PoolConfig) (s : TransactionPool)
      → 0 < length s.txpool
      → length (evict_from_txpool node config s).txpool < length s.txpool
  unfolding evict_from_txpool without
  evict-shorter config s h =
      let txs = bucket_transactions node no_limit s.txpool in
      elim (Option-cases (last txs)) [
        | inl e ↦
            let none_left = last-none txs e in
            let some_left = buckets_pos s.txpool h in absurd (omega arith)
        | inr (t, e) ↦
            let P : Transaction → Type 0 = λ x. length (without x s.txpool) < length s.txpool in
            let all = bucket_transactions-All node no_limit P s.txpool (without-shorter s.txpool) in
            rw (evict_from_txpool, e) (last-All P txs all e)
      ]

module _ (node : Node) (config : PoolConfig) where
  length-add_to_txpool :
      (entry : PoolEntry) (header : BlockHeader) (s : TransactionPool)
      → (add_to_txpool node config entry header s).1 ≡ ok tt
      → length (add_to_txpool node config entry header s).0.txpool ≡ suc (length s.txpool)
  unfolding add_to_txpool
  length-add_to_txpool entry header s well =
      elim (Result-cases (
        deaggregate_entry node config entry s.txpool >>= λ x.
        entries.add_to_pool node s.txpool x [] header)) [
          | inl (e, r) ↦
              let ill : (add_to_txpool node config entry header s).1 ≡ err e =
                rw (add_to_txpool, r) refl in
              cc (well, ill)
          | inr (added, r) ↦
              let (d, _, put) = >>=-eq-ok (deaggregate_entry node config entry s.txpool) _ r in
              let (_, _, _, _, same) = add_to_pool-ok node s.txpool d [] header put in
              let kept =
                reconcile_stempool-txpool node config header (record s { txpool = added }) in
              let size = length-append s.txpool (d ∷ []) in
              rw (add_to_txpool, r, kept, same) (omega (arith, size))
        ]

  length-fluff :
      (entry : PoolEntry) (header : BlockHeader) (s : TransactionPool)
      → (length (fluff node config entry header false s).0.txpool ≤ suc (length s.txpool))
        × (length (fluff node config entry header true s).0.txpool ≤ length s.txpool)
  unfolding fluff add_to_reorg_cache
  length-fluff entry header s = elim (Result-cases (add_to_txpool node config entry header s).1) [
    | inl (_, r) ↦
        let same = add_to_txpool-eq-err node config entry header s r in
        rw (fluff, r, same) (omega arith, omega arith)
    | inr (_, r) ↦
        let size = length-add_to_txpool entry header s r in
        let cached =
          add_to_reorg_cache node config entry (add_to_txpool node config entry header s).0 in
        let told : TransactionPool = record cached { accepted = entry.tx ∷ cached.accepted } in
        let gone : length (evict_from_txpool node config told).txpool < length told.txpool =
          evict-shorter node config told (omega (arith, size)) in
        rw (fluff, r) (omega (arith, size), omega (arith, gone, size))
  ]

  -- Within the capacity and one more.
  abbrev pub IsWithin : TransactionPool → Type 0
  IsWithin s = length s.txpool ≤ suc config.max_pool_size

  fluff-IsWithin :
      (entry : PoolEntry) (header : BlockHeader) (evict : Bool) (s : TransactionPool)
      → length s.txpool ≤ config.max_pool_size
      → IsWithin (fluff node config entry header evict s).0
  fluff-IsWithin entry header true s h =
      let size = (length-fluff entry header s).1 in omega (arith, size)
  fluff-IsWithin entry header false s h =
      let size = (length-fluff entry header s).0 in omega (arith, size)

  admit-IsWithin :
      (entry : PoolEntry) (stem : Bool) (header : BlockHeader) (evict : Bool) (s : TransactionPool)
      → IsWithin s
      → (evict ≡ true) × (stem ≡ false) ⊎ (length s.txpool ≤ config.max_pool_size)
      → IsWithin (admit node config entry stem header evict s).0
  unfolding admit
  admit-IsWithin entry false header true s within cause =
      let size = (length-fluff entry header s).1 in omega (arith, size)
  admit-IsWithin entry false header false s within (inl (e, _)) = cc
  admit-IsWithin entry true header evict s within (inl (_, e)) = cc
  admit-IsWithin entry false header false s within (inr h) = fluff-IsWithin entry header false s h
  admit-IsWithin entry true header evict s within (inr h) =
      let tried = (try_stem node config entry header s).0 in
      let same : tried.txpool ≡ s.txpool = (try_stem-state node config entry header s).0 in
      let size : length tried.txpool ≡ length s.txpool = ap length same in
      let far = fluff-IsWithin entry header evict tried (omega arith) in
      elim (Bool-cases (try_stem node config entry header s).1) [
        | inl t ↦ rw (admit, t) (omega arith)
        | inr t ↦ rw (admit, t) far
      ]

  check_and_admit-IsWithin :
      (now : ℕ) (src : TxSource) (tx : Transaction) (stem : Bool) (header : BlockHeader)
      (evict : Bool) (s : TransactionPool)
      → IsWithin s
      → (evict ≡ true) × (stem ≡ false) ⊎ (length s.txpool ≤ config.max_pool_size)
      → IsWithin (check_and_admit node config now src tx stem header evict s).0
  unfolding check_and_admit
  check_and_admit-IsWithin now src tx stem header evict s within cause =
      elim (Result-cases (check_tx node config tx)) [
        | inl (_, r) ↦ rw (check_and_admit, r) within
        | inr (_, r) ↦
            let entry : PoolEntry = record { src = src; tx_at = now; tx = tx } in
            rw (check_and_admit, r) (admit-IsWithin entry stem header evict s within cause)
      ]

  is_acceptable-ok :
      (tx : Transaction) (stem : Bool) (s : TransactionPool)
      → is_acceptable node config tx stem s ≡ ok tt
      → length s.txpool ≤ config.max_pool_size
  unfolding is_acceptable
  is_acceptable-ok tx stem s e = ground arith

  -- `add_to_pool` keeps the txpool within its capacity and one more, whatever its outcome.
  pub add_to_pool-IsWithin :
      (now : ℕ) (src : TxSource) (tx : Transaction) (stem : Bool) (header : BlockHeader)
      (s : TransactionPool)
      → IsWithin s
      → IsWithin (admission.add_to_pool node config now src tx stem header s).0
  add_to_pool-IsWithin now src tx stem header s within =
      elim (add_to_pool-cases node config now src tx stem header s) [
        | inl (_, r) ↦ rw r within
        | inr (evict, r, cause) ↦
            rw r (check_and_admit-IsWithin now src tx stem header evict s within (room cause))
      ]
    where
      room :
          {evict : Bool}
          → (evict ≡ true) × (stem ≡ false) ⊎ (is_acceptable node config tx stem s ≡ ok tt)
          → (evict ≡ true) × (stem ≡ false) ⊎ (length s.txpool ≤ config.max_pool_size)
      room (inl e) = inl e
      room (inr e) = inr (is_acceptable-ok tx stem s e)
