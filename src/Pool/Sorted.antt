-- ===== src/Pool/Sorted.antt =====
-- What `bucket_transactions` of pool/src/pool.rs makes of the entries.
use epic.Base.{
  ℕ, suc, ◌≤◌, ◌<◌, false, List, [], ◌∷◌, ◌++◌, none, get_elem?, length, leb, ◌≡◌, refl, subst,
  arith, inl, inr, Bool-cases, Option-cases, length-append, length-set,
}
use epic.Base.Results.{ok, >>=-eq-ok, Result-cases}
use epic.Base.Predicates.{All, All-append, All-set, All-get_elem?}
use epic.Transaction.Outputs.{Input}
use epic.Transaction.Body.{Transaction, Weighting, fee_to_weight}
use epic.Transaction.Aggregate.{aggregate, validate}
use epic.Pool.Types.{PoolEntry, Node}
use epic.Pool.Buckets.{
  Bucket, new_bucket, Sorting, bucket_of, is_among, find_parent, insert_bucket, sort_buckets,
  flatten, start, aggregate_with_tx, place_child, place_tx, place_all, bucket_transactions,
}

All-Unit : {A : Type 0} (xs : List A) → All (λ _. Unit {0}) xs
All-Unit [] = tt
All-Unit (x ∷ xs) = (tt, All-Unit xs)

-- A bucket's transactions have the property, and it has one.
abbrev IsFilled : (Transaction → Type 0) → Bucket → Type 0
IsFilled P b = All P b.raw_txs × (0 < length b.raw_txs)

module _ (P : Transaction → Type 0) where
  insert_bucket-All :
      (b : Bucket) (bs : List Bucket)
      → IsFilled P b
      → All (IsFilled P) bs
      → All (IsFilled P) (insert_bucket b bs)
  unfolding insert_bucket
  insert_bucket-All b [] hb h = (hb, tt)
  insert_bucket-All b (x ∷ xs) hb h = elim (Bool-cases (leb x.ratio b.ratio)) [
    | inl e ↦ rw e (hb, h)
    | inr e ↦ rw e (h.0, insert_bucket-All b xs hb h.1)
  ]

  sort_buckets-All : (bs : List Bucket) → All (IsFilled P) bs → All (IsFilled P) (sort_buckets bs)
  unfolding sort_buckets
  sort_buckets-All [] h = tt
  sort_buckets-All (b ∷ bs) h = insert_bucket-All b (sort_buckets bs) h.0 (sort_buckets-All bs h.1)

  flatten-All : (bs : List Bucket) → All (IsFilled P) bs → All P (flatten bs)
  unfolding flatten
  flatten-All [] h = tt
  flatten-All (b ∷ bs) h = All-append P b.raw_txs (flatten bs) h.0.0 (flatten-All bs h.1)

  length-flatten_pos :
      (bs : List Bucket) → All (IsFilled P) bs → 0 < length bs → 0 < length (flatten bs)
  unfolding flatten
  length-flatten_pos [] h some_bucket = absurd (omega arith)
  length-flatten_pos (b ∷ bs) h some_bucket =
      let size = length-append b.raw_txs (flatten bs) in let one = h.0.1 in omega (arith, size)

length-insert_bucket :
    (b : Bucket) (bs : List Bucket) → length (insert_bucket b bs) ≡ suc (length bs)
unfolding insert_bucket
length-insert_bucket b [] = refl
length-insert_bucket b (x ∷ xs) = ground (arith, length-insert_bucket b xs)

length-sort_buckets : (bs : List Bucket) → length (sort_buckets bs) ≡ length bs
unfolding sort_buckets
length-sort_buckets [] = refl
length-sort_buckets (b ∷ bs) =
    omega (arith, length-insert_bucket b (sort_buckets bs), length-sort_buckets bs)

find_parent-start : (inputs : List Input) → find_parent start inputs none false ≡ (none, false)
unfolding find_parent start is_among bucket_of
find_parent-start [] = refl
find_parent-start (i ∷ inputs) = find_parent-start inputs

module _ (node : Node) (weighting : Weighting) where
  aggregate_with_tx-IsFilled :
      (P : Transaction → Type 0) (b : Bucket) (tx : Transaction) {joined : Bucket}
      → IsFilled P b
      → P tx
      → aggregate_with_tx node weighting b tx ≡ ok joined
      → IsFilled P joined
  unfolding aggregate_with_tx
  aggregate_with_tx-IsFilled P b tx {joined} h ht e =
      let (agg, a, e1) =
        >>=-eq-ok (aggregate node.packages node.curve (b.raw_txs ++ tx ∷ [])) _ e in
      let (u, v, e2) =
        >>=-eq-ok (validate node.packages node.curve node.chain weighting agg) _ e1 in
      let made : Bucket = record { raw_txs = b.raw_txs ++ tx ∷ []; ratio = fee_to_weight agg } in
      let same : made ≡ joined = cc e2 in
      let size = length-append b.raw_txs (tx ∷ []) in
      subst (IsFilled P) same (All-append P b.raw_txs (tx ∷ []) h.0 (ht, tt), omega (arith, size))

  -- What a round does to the buckets: it keeps them filled, and loses none.
  abbrev IsRound : (Transaction → Type 0) → Sorting → Sorting → Type 0
  IsRound P s t = All (IsFilled P) t.tx_buckets × (length s.tx_buckets ≤ length t.tx_buckets)

  append-IsFilled :
      (P : Transaction → Type 0) (bs : List Bucket) (tx : Transaction)
      → P tx
      → All (IsFilled P) bs
      → All (IsFilled P) (bs ++ new_bucket tx ∷ [])
        × (length (bs ++ new_bucket tx ∷ []) ≡ suc (length bs))
  unfolding new_bucket
  append-IsFilled P bs tx ht h =
      let size = length-append bs (new_bucket tx ∷ []) in
      (
        All-append (IsFilled P) bs (new_bucket tx ∷ []) h (((ht, tt), omega arith), tt),
        omega (arith, size),
      )

  place_child-IsRound :
      (P : Transaction → Type 0) (s : Sorting) (tx : Transaction) (place : ℕ) (b : Bucket)
      → P tx
      → All (IsFilled P) s.tx_buckets
      → IsFilled P b
      → IsRound P s (place_child node weighting s tx place b)
  unfolding place_child
  place_child-IsRound P s tx place b ht h hb =
      elim (Result-cases (aggregate_with_tx node weighting b tx)) [
        | inl (_, e) ↦ rw (place_child, e) (h, omega arith)
        | inr (joined, e) ↦ elim (Bool-cases (leb b.ratio joined.ratio)) [
          | inl t ↦
              let size = length-set s.tx_buckets place joined in
              rw (place_child, e, t)
                (
                  All-set (IsFilled P) s.tx_buckets place h
                      (aggregate_with_tx-IsFilled P b tx hb ht e),
                  omega (arith, size),
                )
          | inr t ↦
              let grown = append-IsFilled P s.tx_buckets tx ht h in
              let size = grown.1 in rw (place_child, e, t) (grown.0, omega (arith, size))
        ]
      ]

  place_tx-IsRound :
      (P : Transaction → Type 0) (s : Sorting) (tx : Transaction)
      → P tx
      → All (IsFilled P) s.tx_buckets
      → IsRound P s (place_tx node weighting s tx)
  unfolding place_tx
  place_tx-IsRound P s tx ht h = elim (Bool-cases (find_parent s tx.body.inputs none false).1) [
    | inl r ↦ rw (place_tx, r) (h, omega arith)
    | inr r ↦ elim (Option-cases (find_parent s tx.body.inputs none false).0) [
      | inl e ↦
          let grown = append-IsFilled P s.tx_buckets tx ht h in
          let size = grown.1 in rw (place_tx, r, e) (grown.0, omega (arith, size))
      | inr (place, e) ↦ elim (Option-cases (get_elem? s.tx_buckets place)) [
        | inl g ↦ rw (place_tx, r, e, g) (h, omega arith)
        | inr (b, g) ↦
            let hb = All-get_elem? (IsFilled P) s.tx_buckets place h g in
            rw (place_tx, r, e, g) (place_child-IsRound P s tx place b ht h hb)
      ]
    ]
  ]

  place_all-IsRound :
      (P : Transaction → Type 0) (entries : List PoolEntry) (s : Sorting)
      → All (λ e. P (PoolEntry.tx e)) entries
      → All (IsFilled P) s.tx_buckets
      → IsRound P s (place_all node weighting entries s)
  unfolding place_all
  place_all-IsRound P [] s he h = (h, omega arith)
  place_all-IsRound P (e ∷ entries) s he h =
      let once = place_tx-IsRound P s e.tx he.0 h in
      let rest = place_all-IsRound P entries (place_tx node weighting s e.tx) he.1 once.0 in
      let a = once.1 in let b = rest.1 in (rest.0, omega arith)

  pub bucket_transactions-All :
      (P : Transaction → Type 0) (entries : List PoolEntry)
      → All (λ e. P (PoolEntry.tx e)) entries
      → All P (bucket_transactions node weighting entries)
  unfolding bucket_transactions start
  bucket_transactions-All P entries he =
      flatten-All P (sort_buckets (place_all node weighting entries start).tx_buckets) (
        sort_buckets-All P (place_all node weighting entries start).tx_buckets
          (place_all-IsRound P entries start he tt).0)

  place_first : (tx : Transaction) → length (place_tx node weighting start tx).tx_buckets ≡ 1
  unfolding place_tx start
  place_first tx = rw (place_tx, find_parent-start tx.body.inputs) refl

  -- A pool with an entry gives a transaction.
  pub length-bucket_transactions :
      (e : PoolEntry) (entries : List PoolEntry)
      → 0 < length (bucket_transactions node weighting (e ∷ entries))
  unfolding bucket_transactions place_all start
  length-bucket_transactions e entries =
      let P : Transaction → Type 0 = λ _. Unit {0} in
      let first = place_tx node weighting start e.tx in
      let one = place_first e.tx in
      let rest =
        place_all-IsRound P entries first (All-Unit entries)
          (place_tx-IsRound P start e.tx tt tt).0 in
      let kept = rest.1 in
      let bs = (place_all node weighting entries first).tx_buckets in
      let size = length-sort_buckets bs in
      length-flatten_pos P (sort_buckets bs) (sort_buckets-All P bs rest.0) (omega arith)
