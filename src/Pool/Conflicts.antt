-- ===== src/Pool/Conflicts.antt =====
-- What `reconcile_block` of pool/src/transaction_pool.rs leaves in the pools.
use epic.Base.{
  ℕ, ◌≢◌, ◌==◌, ◌||◌, map, Bool, true, false, not, List, [], ◌∷◌, ◌++◌, Option, none, some, ◌≡◌,
  refl, arith, inl, inr, Bool-cases,
}
use epic.Base.Results.{ok, ◌>>=◌, ◌>>◌, >>=-eq-ok, Result-cases}
use epic.Base.Predicates.{All, All-append, All-map}
use epic.Committed.{retain}
use epic.Transaction.Body.{Transaction, no_limit}
use epic.Transaction.Kernel as kernel
use epic.Transaction.Outputs.{hash_input}
use epic.Block.Header.{BlockHeader}
use epic.Block.Checks.{Block}
use epic.Pool.Types.{PoolConfig, PoolEntry, BlockSums, Node, same_tx}
use epic.Pool.Entries as entries
use epic.Pool.Entries.{
  exists, all_transactions, all_transactions_aggregate, aggregate_with, validate_raw_tx, add_again,
  reconcile, conflicts,
}
use epic.Pool.Admission as admission
use epic.Pool.Admission.{TransactionPool, reconcile_stempool}

All-retain : {A : Type 0} (p : A → Bool) (xs : List A) → All (λ x. p x ≡ true) (retain p xs)
unfolding retain
All-retain p [] = tt
All-retain p (x ∷ xs) = elim (Bool-cases (p x)) [
  | inl e ↦ rw e (e, All-retain p xs)
  | inr e ↦ rw e (All-retain p xs)
]

or-false : (a b : Bool) → (a || b) ≡ false → (a ≡ false) × (b ≡ false)
or-false true b e = cc
or-false false b e = (refl, e)

module _ (node : Node) where
  -- An entry that is added stands at the end, and the aggregate with it is valid.
  pub add_to_pool-ok :
      (es : List PoolEntry) (entry : PoolEntry) (extra : List Transaction) (header : BlockHeader)
      {added : List PoolEntry}
      → entries.add_to_pool node es entry extra header ≡ ok added
      → (agg : Transaction) × (sums : BlockSums) × (aggregate_with node
            (all_transactions es ++ extra)
            entry.tx
          ≡ ok agg)
        × (validate_raw_tx node agg header no_limit ≡ ok sums)
        × (added ≡ es ++ entry ∷ [])
  unfolding entries.add_to_pool
  add_to_pool-ok es entry extra header {added} e =
      elim (Bool-cases (exists (λ t. same_tx node.packages t entry.tx) (all_transactions es))) [
        | inl t ↦ cc (e, t)
        | inr f ↦
            let e1 : (do
              agg_tx ← aggregate_with node (all_transactions es ++ extra) entry.tx
              validate_raw_tx node agg_tx header no_limit
              ok (es ++ entry ∷ []))
                ≡ ok added =
              rw f at e in
            let (agg, a, e2) =
              >>=-eq-ok (aggregate_with node (all_transactions es ++ extra) entry.tx) _ e1 in
            let (sums, v, e3) = >>=-eq-ok (validate_raw_tx node agg header no_limit) _ e2 in
            (agg, sums, a, v, cc)
      ]

  add_again-All :
      (P : PoolEntry → Type 0) (kept es : List PoolEntry) (extra : List Transaction)
      (header : BlockHeader)
      → All P kept
      → All P es
      → All P (add_again node kept es extra header)
  unfolding add_again
  add_again-All P kept [] extra header hk he = hk
  add_again-All P kept (x ∷ es) extra header hk he =
      elim (Result-cases (entries.add_to_pool node kept x extra header)) [
        | inl (_, e) ↦ rw e (add_again-All P kept es extra header hk he.1)
        | inr (added, e) ↦
            let (_, _, _, _, same) = add_to_pool-ok kept x extra header e in
            rw e (
              add_again-All P added es extra header
                (rw same (All-append P kept (x ∷ []) hk (he.0, tt))) he.1)
      ]

  reconcile-All :
      (P : PoolEntry → Type 0) (es : List PoolEntry) (extra_tx : Option Transaction)
      (header : BlockHeader)
      → All P es
      → All P (reconcile node es extra_tx header)
  unfolding reconcile
  reconcile-All P es extra_tx header h =
      add_again-All P [] es (elim extra_tx [ none ↦ [] | some tx ↦ tx ∷ [] ]) header tt h

-- No number stands in both lists.
unfoldable pub Apart : List ℕ → List ℕ → Type 0
Apart xs ys = All (λ x. All (λ y. x ≢ y) ys) xs

exists-All :
    {B : Type 0} (f : B → ℕ) (x : ℕ) (ys : List B)
    → exists (λ k. f k == x) ys ≡ false
    → All (λ y. x ≢ y) (map f ys)
unfolding exists
exists-All f x [] e = tt
exists-All f x (y ∷ ys) e = elim (Bool-cases (f y == x)) [
  | inl same ↦ cc (e, same)
  | inr other ↦
      let e' : exists (λ k. f k == x) ys ≡ false = rw other at e in
      (λ equal. ground (arith, other, equal), exists-All f x ys e')
]

exists-Apart :
    {A B : Type 0} (g : A → ℕ) (f : B → ℕ) (xs : List A) (ys : List B)
    → exists (λ x. exists (λ y. f y == g x) ys) xs ≡ false
    → Apart (map g xs) (map f ys)
unfolding exists Apart
exists-Apart g f [] ys e = tt
exists-Apart g f (x ∷ xs) ys e = elim (Bool-cases (exists (λ y. f y == g x) ys)) [
  | inl same ↦ absurd (ground (arith, e, same))
  | inr other ↦
      let e' : exists (λ x. exists (λ y. f y == g x) ys) xs ≡ false = ground (arith, e, other) in
      (exists-All f (g x) ys other, exists-Apart g f xs ys e')
]

conflicts-Apart :
    (node : Node) (b : Block) (e : PoolEntry)
    → conflicts node b e ≡ false
    → Apart
        (map (kernel.hash node.packages) e.tx.body.kernels)
        (map (kernel.hash node.packages) b.body.kernels)
      × Apart
          (map (hash_input node.packages) e.tx.body.inputs)
          (map (hash_input node.packages) b.body.inputs)
unfolding conflicts
conflicts-Apart node b e free =
    let (kernels, inputs) = or-false _ _ free in
    (exists-Apart _ _ _ _ kernels, exists-Apart _ _ _ _ inputs)

module _ (node : Node) (config : PoolConfig) where
  pub reconcile_stempool-txpool :
      (header : BlockHeader) (s : TransactionPool)
      → (reconcile_stempool node config header s).0.txpool ≡ s.txpool
  unfolding reconcile_stempool
  reconcile_stempool-txpool header s =
      elim (Result-cases (all_transactions_aggregate node s.txpool)) [
        | inl (_, e) ↦ rw (reconcile_stempool, e) refl
        | inr (_, e) ↦ rw (reconcile_stempool, e) refl
      ]

  -- In the txpool after a block is reconciled, whether or not the stempool then fails, no kernel of an
  -- entry has the hash of a kernel of the block, and no input of an entry the hash of an input of the
  -- block.
  pub reconcile_block-Apart :
      (b : Block) (s : TransactionPool)
      → All
          (λ e.
            Apart
              (map (kernel.hash node.packages) e.tx.body.kernels)
              (map (kernel.hash node.packages) b.body.kernels)
            × Apart
                (map (hash_input node.packages) e.tx.body.inputs)
                (map (hash_input node.packages) b.body.inputs))
          (admission.reconcile_block node config b s).0.txpool
  unfolding admission.reconcile_block entries.reconcile_block
  reconcile_block-Apart b s =
      let kept = entries.reconcile_block node s.txpool b in
      let next : TransactionPool = record s {
        txpool = reconcile node kept none b.header;
        stempool = entries.reconcile_block node s.stempool b;
      } in
      let same = reconcile_stempool-txpool b.header next in
      let free =
        All-map (λ e h. conflicts-Apart node b e (grind arith)) kept
          (All-retain (λ e. not (conflicts node b e)) s.txpool) in
      rw same (reconcile-All node _ kept none b.header free)
