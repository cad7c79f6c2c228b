-- ===== src/Pool/Buckets.antt =====
-- `bucket_transactions` of pool/src/pool.rs.
use epic.Base.{
  ℕ, Bool, true, false, List, [], ◌∷◌, ◌++◌, Option, none, some, get_elem?, set, length, leb,
  if◌then◌else◌,
}
use epic.Base.Results.{Result, ok, err, ◌>>=◌, ◌>>◌}
use epic.Committed.{same_bytes}
use epic.Transaction.Errors as errors
use epic.Transaction.Outputs.{Input, Output}
use epic.Transaction.Body.{Transaction, Weighting, fee_to_weight}
use epic.Transaction.Aggregate.{aggregate, validate}
use epic.Pool.Types.{PoolEntry, Node}

pub record Bucket : Type 0 where
  pub raw_txs : List Transaction
  pub ratio : ℕ

unfoldable pub new_bucket : Transaction → Bucket
new_bucket tx = record { raw_txs = tx ∷ []; ratio = fee_to_weight tx }

-- What the loop over the entries changes: the buckets, the bucket of each output's commitment, the
-- latest first, and the commitments that are rejected.
pub record Sorting : Type 0 where
  pub tx_buckets : List Bucket
  pub output_commits : List (List ℕ × ℕ)
  pub rejected : List (List ℕ)

unfoldable pub bucket_of : List ℕ → List (List ℕ × ℕ) → Option ℕ
bucket_of commit [] = none
bucket_of commit ((key, place) ∷ rest) =
    if same_bytes key commit then some place else bucket_of commit rest

unfoldable pub is_among : List ℕ → List (List ℕ) → Bool
is_among commit [] = false
is_among commit (x ∷ xs) = if same_bytes x commit then true else is_among commit xs

-- The loop over the inputs, with `insert_pos` and `is_rejected`.
unfoldable pub find_parent : Sorting → List Input → Option ℕ → Bool → Option ℕ × Bool
find_parent s [] insert_pos is_rejected = (insert_pos, is_rejected)
find_parent s (i ∷ inputs) insert_pos is_rejected =
    if is_among i.commit s.rejected
    then find_parent s inputs insert_pos true
    else elim (bucket_of i.commit s.output_commits) [
      | none ↦ find_parent s inputs insert_pos is_rejected
      | some place ↦ elim insert_pos [
        | none ↦ find_parent s inputs (some place) is_rejected
        | some other ↦ find_parent s inputs (some other) true
      ]
    ]

unfoldable pub reject : List Output → List (List ℕ) → List (List ℕ)
reject [] rejected = rejected
reject (o ∷ outputs) rejected = reject outputs (o.commit ∷ rejected)

unfoldable pub index : List Output → ℕ → List (List ℕ × ℕ) → List (List ℕ × ℕ)
index [] place commits = commits
index (o ∷ outputs) place commits = index outputs place ((o.commit, place) ∷ commits)

-- A stable sort, the greatest ratio first.
unfoldable pub insert_bucket : Bucket → List Bucket → List Bucket
insert_bucket b [] = b ∷ []
insert_bucket b (x ∷ xs) = if leb x.ratio b.ratio then b ∷ x ∷ xs else x ∷ insert_bucket b xs

unfoldable pub sort_buckets : List Bucket → List Bucket
sort_buckets [] = []
sort_buckets (b ∷ bs) = insert_bucket b (sort_buckets bs)

unfoldable pub flatten : List Bucket → List Transaction
flatten [] = []
flatten (b ∷ bs) = b.raw_txs ++ flatten bs

unfoldable pub start : Sorting
start = record { tx_buckets = []; output_commits = []; rejected = [] }

module _ (node : Node) (weighting : Weighting) where
  unfoldable pub aggregate_with_tx : Bucket → Transaction → Result errors.Error Bucket
  aggregate_with_tx b new_tx =
      let raw_txs = b.raw_txs ++ new_tx ∷ [] in
      aggregate node.packages node.curve raw_txs >>= λ agg_tx.
      (validate node.packages node.curve node.chain weighting agg_tx
        >> ok (record { raw_txs = raw_txs; ratio = fee_to_weight agg_tx }))

  -- A transaction whose parent's bucket is the one at the place, which is there.
  unfoldable pub place_child : Sorting → Transaction → ℕ → Bucket → Sorting
  place_child s tx place bucket = elim (aggregate_with_tx bucket tx) [
    | err e ↦ record s { rejected = reject tx.body.outputs s.rejected }
    | ok joined ↦ record s {
      tx_buckets =
          if leb bucket.ratio joined.ratio
          then set s.tx_buckets place joined
          else s.tx_buckets ++ new_bucket tx ∷ [];
      output_commits = index tx.body.outputs place s.output_commits;
    }
  ]

  -- One round of the loop.
  unfoldable pub place_tx : Sorting → Transaction → Sorting
  place_tx s tx =
      let found = find_parent s tx.body.inputs none false in
      if found.1
      then record s { rejected = reject tx.body.outputs s.rejected }
      else elim (found.0) [
        | none ↦ record s {
          tx_buckets = s.tx_buckets ++ new_bucket tx ∷ [];
          output_commits = index tx.body.outputs (length s.tx_buckets) s.output_commits;
        }
        | some place ↦ elim (get_elem? s.tx_buckets place) [
          | none ↦ s
          | some bucket ↦ place_child s tx place bucket
        ]
      ]

  unfoldable pub place_all : List PoolEntry → Sorting → Sorting
  place_all [] s = s
  place_all (e ∷ entries) s = place_all entries (place_tx s e.tx)

  unfoldable pub bucket_transactions : List PoolEntry → List Transaction
  bucket_transactions entries = flatten (sort_buckets (place_all entries start).tx_buckets)
