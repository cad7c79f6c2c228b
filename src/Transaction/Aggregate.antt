-- ===== src/Transaction/Aggregate.antt =====
-- Full validation, `aggregate` and `deaggregate` of core/src/core/transaction.rs.
use epic.Base.{ℕ, Bool, not, ◌&&◌, ◌||◌, List, [], ◌∷◌, ◌++◌, ◌==◌, if◌then◌else◌, none, some, map}
use epic.Base.Signed.{to_i64}
use epic.Base.Results.{Result, ok, err, ◌>>=◌, ◌>>◌, map_err}
use epic.Consensus.Emission.{ChainTypes}
use epic.Ser.{Packages, RangeProof}
use epic.Committed.{
  Curve, zero_factor, from_slice, to_secrets, sum_kernel_offsets, verify_kernel_sums,
}
use epic.Transaction.Errors.{
  Error, secp, committed, aggregation_error, invalid_kernel_features, incorrect_signature,
}
use epic.Transaction.Kernel as kernel
use epic.Transaction.Kernel.{TxKernel}
use epic.Transaction.Outputs.{Input, Output, hash_input, hash_output}
use epic.Transaction.Body.{
  TransactionBody, Transaction, Weighting, validate_body, verify_features, fee, any, new, empty,
  with_offset,
}
use epic.Transaction.Sorting.{sort}
use epic.Transaction.CutThrough.{cut_through}

-- The condition of the first check of `TxKernel::verify`.
unfoldable pub has_wrong_features : TxKernel → Bool
has_wrong_features k =
    (kernel.is_coinbase k && not (k.fee == 0))
    || (not (kernel.is_height_locked k) && not (k.lock_height == 0))

-- `TxKernel::verify`
unfoldable pub verify_kernel : Packages → Curve → TxKernel → Result Error (Unit {0})
verify_kernel p c k = if has_wrong_features k then err invalid_kernel_features else do
  pubkey ← map_err secp (c.to_pubkey k.excess)
  msg ← kernel.msg_to_sign p k
  if not (c.verify_single k.excess_sig msg pubkey) then err incorrect_signature else ok tt

unfoldable pub verify_kernels : Packages → Curve → List TxKernel → Result Error (Unit {0})
verify_kernels p c [] = ok tt
verify_kernels p c (k ∷ kernels) = verify_kernel p c k >> verify_kernels p c kernels

unfoldable pub batch_verify_proofs :
    Curve → List (List ℕ) → List RangeProof → Result Error (Unit {0})
batch_verify_proofs c commits proofs = map_err secp (c.verify_bullet_proof_multi commits proofs)

-- Nothing to verify of no outputs.
unfoldable pub verify_proofs : Curve → List Output → Result Error (Unit {0})
verify_proofs c [] = ok tt
verify_proofs c (o ∷ outputs) =
    batch_verify_proofs c (map (λ x. Output.commit x) (o ∷ outputs))
      (map (λ x. Output.proof x) (o ∷ outputs))

-- The appended vectors of all transactions.
unfoldable pub append_all : List Transaction → TransactionBody
append_all [] = record { inputs = []; outputs = []; kernels = [] }
append_all (tx ∷ txs) =
    let rest = append_all txs in
    record {
      inputs = tx.body.inputs ++ rest.inputs;
      outputs = tx.body.outputs ++ rest.outputs;
      kernels = tx.body.kernels ++ rest.kernels;
    }

-- `!known.contains(x) && !kept.contains(x)`, by the hash that `==` compares.
unfoldable pub push_new : {A : Type 0} → (A → ℕ) → List A → List A → List A → List A
push_new key known kept [] = kept
push_new key known kept (x ∷ xs) =
    let next =
      if any (λ y. key y == key x) known || any (λ y. key y == key x) kept
      then kept
      else kept ++ x ∷ [] in
    push_new key known next xs

-- The offset of the rest.
unfoldable pub subtract_offset : Curve → List ℕ → List ℕ → Result Error (List ℕ)
subtract_offset c mk_offset offset =
    let sum : List (List ℕ) → List (List ℕ) → Result Error (List ℕ) = λ positive negative.
      map_err secp (c.blind_sum positive negative) >>= λ key. ok (from_slice key) in
    elim (to_secrets c (mk_offset ∷ [])) [
      | [] ↦ elim (to_secrets c (offset ∷ [])) [
        | [] ↦ ok zero_factor
        | key ∷ keys ↦ sum [] (key ∷ keys)
      ]
      | key ∷ keys ↦ sum (key ∷ keys) (to_secrets c (offset ∷ []))
    ]

module _ (p : Packages) (c : Curve) where
  -- `TransactionBody::validate`
  unfoldable pub validate_in_full :
      ChainTypes → Weighting → TransactionBody → Result Error (Unit {0})
  validate_in_full chain weighting b =
      validate_body p chain weighting b >> verify_proofs c b.outputs >> verify_kernels p c b.kernels

  -- `Transaction::validate`
  unfoldable pub validate : ChainTypes → Weighting → Transaction → Result Error (Unit {0})
  validate chain weighting tx = do
    validate_in_full chain weighting tx.body
    verify_features tx.body
    map_err committed (
        verify_kernel_sums c (map (λ i. Input.commit i) tx.body.inputs)
          (map (λ o. Output.commit o) tx.body.outputs)
          (map (λ k. TxKernel.excess k) tx.body.kernels) (to_i64 (fee tx.body)) tx.offset)
    ok tt

  -- The sums and the building after the short ways out.
  unfoldable pub aggregate_many : List Transaction → Result Error Transaction
  aggregate_many txs =
      let b = append_all txs in
      elim (cut_through (hash_input p) (hash_output p) b.inputs b.outputs) [
        | none ↦ err aggregation_error
        | some (inputs, outputs) ↦
            map_err committed (sum_kernel_offsets c (map (λ tx. Transaction.offset tx) txs) [])
            >>= λ offset.
                ok (with_offset (new p inputs outputs (sort (kernel.hash p) b.kernels)) offset)
      ]

  unfoldable pub aggregate : List Transaction → Result Error Transaction
  aggregate [] = ok empty
  aggregate (tx ∷ []) = ok tx
  aggregate (tx ∷ tx' ∷ txs) = aggregate_many (tx ∷ tx' ∷ txs)

  unfoldable pub deaggregate : Transaction → List Transaction → Result Error Transaction
  deaggregate mk_tx txs = do
    tx ← aggregate txs
    total_kernel_offset ← subtract_offset c mk_tx.offset tx.offset
    let inputs = push_new (hash_input p) tx.body.inputs [] mk_tx.body.inputs
    let outputs = push_new (hash_output p) tx.body.outputs [] mk_tx.body.outputs
    let kernels = push_new (kernel.hash p) tx.body.kernels [] mk_tx.body.kernels
    ok (
        with_offset
          (new p (sort (hash_input p) inputs) (sort (hash_output p) outputs)
            (sort (kernel.hash p) kernels))
          total_kernel_offset)
