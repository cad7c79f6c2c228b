-- ===== src/Transaction/Sums.antt =====
-- What `aggregate` gives.
use epic.Base.{ℕ, ◌+◌, ◌≤◌, ◌≡◌, ◌⊎◌, inl, inr, refl, arith, List, [], ◌∷◌, ◌++◌, map}
use epic.Base.Results.{Result-cases, ok, err}
use epic.Ser.{Packages}
use epic.Committed.{Curve, sum_kernel_offsets}
use epic.Transaction.Errors.{CommittedError, committed, aggregation_error}
use epic.Transaction.Kernel as kernel
use epic.Transaction.Outputs.{hash_input, hash_output}
use epic.Transaction.Body.{Transaction, new, sort_body, with_offset}
use epic.Transaction.Sorting.{sort, count, count-sort}
use epic.Transaction.CutThrough.Balance.{cut_through_lem}
use epic.Transaction.Aggregate.{append_all, aggregate_many, aggregate}

module _ (p : Packages) where
  -- The numbers of inputs, outputs and kernels with a hash in all of some transactions.
  unfoldable pub total_inputs : ℕ → List Transaction → ℕ
  total_inputs k [] = 0
  total_inputs k (tx ∷ txs) = count (hash_input p) k tx.body.inputs + total_inputs k txs

  unfoldable pub total_outputs : ℕ → List Transaction → ℕ
  total_outputs k [] = 0
  total_outputs k (tx ∷ txs) = count (hash_output p) k tx.body.outputs + total_outputs k txs

  unfoldable pub total_kernels : ℕ → List Transaction → ℕ
  total_kernels k [] = 0
  total_kernels k (tx ∷ txs) = count (kernel.hash p) k tx.body.kernels + total_kernels k txs

  count-append :
      {A : Type 0} (key : A → ℕ) (k : ℕ) (xs ys : List A)
      → count key k (xs ++ ys) ≡ count key k xs + count key k ys
  unfolding count
  count-append key k [] ys = omega arith
  count-append key k (x ∷ xs) ys = omega (arith, count-append key k xs ys)

  count-append_all :
      (k : ℕ) (txs : List Transaction)
      → (count (hash_input p) k (append_all txs).inputs ≡ total_inputs k txs)
        × (count (hash_output p) k (append_all txs).outputs ≡ total_outputs k txs)
        × (count (kernel.hash p) k (append_all txs).kernels ≡ total_kernels k txs)
  unfolding append_all total_inputs total_outputs total_kernels count
  count-append_all k [] = (refl, refl, refl)
  count-append_all k (tx ∷ txs) =
      let rest = append_all txs in
      let (is, os, ks) = count-append_all k txs in
      (
        omega (arith, count-append (hash_input p) k tx.body.inputs rest.inputs, is),
        omega (arith, count-append (hash_output p) k tx.body.outputs rest.outputs, os),
        omega (arith, count-append (kernel.hash p) k tx.body.kernels rest.kernels, ks),
      )

module _ (p : Packages) (c : Curve) where
  -- What holds of an aggregate of transactions.
  pub record IsAggregate (txs : List Transaction) (agg : Transaction) : Type 0 where
    pub offset_sum : sum_kernel_offsets c (map (λ tx. Transaction.offset tx) txs) [] ≡ ok agg.offset
    pub balance :
        (k : ℕ)
        → count (hash_input p) k agg.body.inputs + total_outputs p k txs
          ≡ total_inputs p k txs + count (hash_output p) k agg.body.outputs
    pub apart :
        (k : ℕ)
        → (count (hash_input p) k agg.body.inputs ≡ 0)
          ⊎ (count (hash_output p) k agg.body.outputs ≡ 0)
    pub all_kernels : (k : ℕ) → count (kernel.hash p) k agg.body.kernels ≡ total_kernels p k txs

  aggregate_many_lem :
      (txs : List Transaction)
      → ((k : ℕ) × (2 ≤ total_outputs p k txs) × (aggregate_many p c txs ≡ err aggregation_error))
        ⊎ (((e : CommittedError) × (sum_kernel_offsets c (map (λ tx. Transaction.offset tx) txs) []
                ≡ err e)
              × (aggregate_many p c txs ≡ err (committed e)))
            ⊎ ((agg : Transaction) × (aggregate_many p c txs ≡ ok agg) × IsAggregate txs agg))
  unfolding aggregate_many new sort_body with_offset
  aggregate_many_lem txs =
      let b = append_all txs in
      elim (cut_through_lem (hash_input p) (hash_output p) b.inputs b.outputs) [
        | inl (k, two, e) ↦
            inl (k, omega (arith, two, (count-append_all p k txs).1), rw (aggregate_many, e) refl)
        | inr (is, os, e, once, balance, apart) ↦
            elim (Result-cases (sum_kernel_offsets c (map (λ tx. Transaction.offset tx) txs) [])) [
              | inl (f, sum) ↦ inr (inl (f, sum, rw (aggregate_many, e, sum) refl))
              | inr (offset, sum) ↦ inr (
                  inr (
                    with_offset (new p is os (sort (kernel.hash p) b.kernels)) offset,
                    rw (aggregate_many, e, sum) refl,
                    record {
                      offset_sum = sum;
                      balance = λ k. omega (
                        arith,
                        balance k,
                        count-append_all p k txs,
                        count-sort (hash_input p) k is,
                        count-sort (hash_output p) k os,
                      );
                      apart = λ k. ground (
                        arith,
                        apart k,
                        count-sort (hash_input p) k is,
                        count-sort (hash_output p) k os,
                      );
                      all_kernels = λ k. omega (
                        arith,
                        count-append_all p k txs,
                        count-sort (kernel.hash p) k b.kernels,
                        count-sort (kernel.hash p) k (sort (kernel.hash p) b.kernels),
                      );
                    },
                  ))
            ]
      ]

  -- Two or more transactions aggregate to one whose offset is the sum of theirs, with all their
  -- kernels, each hash in the balance of inputs and outputs that they have together, and none on both
  -- sides, unless two outputs have one hash or the offsets have no sum: these are the errors.
  pub aggregate-IsAggregate :
      (tx tx' : Transaction) (txs : List Transaction)
      → ((k : ℕ) × (2 ≤ total_outputs p k (tx ∷ tx' ∷ txs))
          × (aggregate p c (tx ∷ tx' ∷ txs) ≡ err aggregation_error))
        ⊎ (((e : CommittedError) × (sum_kernel_offsets c
                  (map (λ t. Transaction.offset t) (tx ∷ tx' ∷ txs))
                  []
                ≡ err e)
              × (aggregate p c (tx ∷ tx' ∷ txs) ≡ err (committed e)))
            ⊎ ((agg : Transaction) × (aggregate p c (tx ∷ tx' ∷ txs) ≡ ok agg)
                × IsAggregate (tx ∷ tx' ∷ txs) agg))
  unfolding aggregate
  aggregate-IsAggregate tx tx' txs = aggregate_many_lem (tx ∷ tx' ∷ txs)
