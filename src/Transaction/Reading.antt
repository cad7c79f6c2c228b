-- ===== src/Transaction/Reading.antt =====
-- `validate_read` as a predicate, and what a transaction that was read satisfies.
use epic.Base.{ℕ, ◌+◌, ◌≤◌, ◌≡◌, ◌≢◌, ◌↔◌, inl, inr, refl, subst, arith, false, List, [], ◌∷◌, map}
use epic.Base.Results.{Result, ok, err, ◌>>◌, >>=-eq-ok}
use epic.Consensus.Emission.{ChainTypes, automated_testing, user_testing, floonet, mainnet}
use epic.Ser.{Packages, read_blinding_factor}
use epic.Base.Predicates.{All}
use epic.Ser.Codec.{>>=-ok}
use epic.Transaction.Errors.{Error}
use epic.Transaction.Kernel as kernel
use epic.Transaction.Outputs as outputs
use epic.Transaction.Body.{
  TransactionBody, Transaction, as_transaction, max_block_weight, max_weight, body_weight_as_block,
  verify_weight, verify_sorted, verify_cut_through, verify_features, any, verify_output_features,
  verify_kernel_features, validate_body, validate_read, or_corrupted, read_body, read,
}
use epic.Transaction.Validation.{Increasing, Has, verify_sorted_and_unique-ok, merge_hashes-cases}

-- Room for the coinbase, hashes in order and all different, no output spent by an input beside it,
-- nothing of the coinbase.
pub record IsValid (p : Packages) (chain : ChainTypes) (tx : Transaction) : Type 0 where
  pub light : body_weight_as_block tx.body + 24 ≤ max_block_weight chain
  pub inputs_order : Increasing (map (outputs.hash_input p) tx.body.inputs)
  pub outputs_order : Increasing (map (outputs.hash_output p) tx.body.outputs)
  pub kernels_order : Increasing (map (kernel.hash p) tx.body.kernels)
  pub apart :
      (h : ℕ)
      → Has h (map (outputs.hash_input p) tx.body.inputs)
      → Has h (map (outputs.hash_output p) tx.body.outputs)
      → ⊥
  pub plain_outputs : All (λ o. outputs.Output.features o ≡ outputs.plain) tx.body.outputs
  pub no_coinbase : All (λ k. kernel.TxKernel.features k ≢ kernel.coinbase) tx.body.kernels

any-plain :
    (os : List outputs.Output)
    → (any outputs.is_coinbase_output os ≡ false → All (λ o. o.features ≡ outputs.plain) os)
      × (All (λ o. o.features ≡ outputs.plain) os → any outputs.is_coinbase_output os ≡ false)
unfolding any outputs.is_coinbase_output outputs.is_coinbase
any-plain [] = (λ e. tt, λ a. refl)
any-plain (o ∷ os) = ground (arith, any-plain os)

any-coinbase :
    (ks : List kernel.TxKernel)
    → (any kernel.is_coinbase ks ≡ false → All (λ k. k.features ≢ kernel.coinbase) ks)
      × (All (λ k. k.features ≢ kernel.coinbase) ks → any kernel.is_coinbase ks ≡ false)
unfolding any kernel.is_coinbase
any-coinbase [] = (λ e. tt, λ a. refl)
any-coinbase (k ∷ ks) = ground (arith, any-coinbase ks)

le-max_block_weight : (chain : ChainTypes) → 24 ≤ max_block_weight chain
le-max_block_weight automated_testing = omega arith
le-max_block_weight user_testing = omega arith
le-max_block_weight floonet = omega arith
le-max_block_weight mainnet = omega arith

verify_weight-ok :
    (chain : ChainTypes) (b : TransactionBody)
    → (verify_weight chain as_transaction b ≡ ok tt
        → body_weight_as_block b + 24 ≤ max_block_weight chain)
      × (body_weight_as_block b + 24 ≤ max_block_weight chain
          → verify_weight chain as_transaction b ≡ ok tt)
unfolding verify_weight max_weight
verify_weight-ok chain b = ground (arith, le-max_block_weight chain)

or_corrupted-ok :
    (r : Result Error (Unit {0})) (bytes : List ℕ) {x : Unit {0} × List ℕ}
    → or_corrupted r bytes ≡ ok x
    → r ≡ ok tt
unfolding or_corrupted
or_corrupted-ok (ok u) bytes e = refl
or_corrupted-ok (err f) bytes e = cc

module _ (p : Packages) where
  pub verify_sorted-ok :
      (b : TransactionBody)
      → (verify_sorted p b ≡ ok tt
          → Increasing (map (outputs.hash_input p) b.inputs)
            × Increasing (map (outputs.hash_output p) b.outputs)
            × Increasing (map (kernel.hash p) b.kernels))
        × (Increasing (map (outputs.hash_input p) b.inputs)
            → Increasing (map (outputs.hash_output p) b.outputs)
            → Increasing (map (kernel.hash p) b.kernels)
            → verify_sorted p b ≡ ok tt)
  unfolding verify_sorted
  verify_sorted-ok b = ground (
    arith,
    verify_sorted_and_unique-ok (map (outputs.hash_input p) b.inputs),
    verify_sorted_and_unique-ok (map (outputs.hash_output p) b.outputs),
    verify_sorted_and_unique-ok (map (kernel.hash p) b.kernels),
  )

  -- Of the loop on hashes in order: it passes where no hash stands on both sides, and only there.
  pub verify_cut_through-ok :
      (b : TransactionBody)
      → Increasing (map (outputs.hash_input p) b.inputs)
      → Increasing (map (outputs.hash_output p) b.outputs)
      → (verify_cut_through p b ≡ ok tt) ↔ (
          (h : ℕ)
          → Has h (map (outputs.hash_input p) b.inputs)
          → Has h (map (outputs.hash_output p) b.outputs)
          → ⊥)
  unfolding verify_cut_through
  verify_cut_through-ok b is os =
      elim (merge_hashes-cases (map (outputs.hash_input p) b.inputs)
        (map (outputs.hash_output p) b.outputs) is os) [
          | inl (passes, apart) ↦ (λ e. apart, λ a. passes)
          | inr (fails, h, i, o) ↦ (λ e _ _ _. cc, λ a. elim (a h i o) [ ])
        ]

  -- `validate_read` passes the valid transactions and no other.
  pub validate_read-IsValid :
      (chain : ChainTypes) (tx : Transaction)
      → (validate_read p chain tx ≡ ok tt) ↔ IsValid p chain tx
  unfolding validate_read validate_body verify_features verify_output_features
      verify_kernel_features
  validate_read-IsValid chain tx = (
    λ e.
        let (_, e1, features) = >>=-eq-ok (validate_body p chain as_transaction tx.body) _ e in
        let (_, e2, cut) =
          >>=-eq-ok (verify_weight chain as_transaction tx.body >> verify_sorted p tx.body) _ e1 in
        let (_, light, sorted) = >>=-eq-ok (verify_weight chain as_transaction tx.body) _ e2 in
        let (_, outs, kerns) = >>=-eq-ok (verify_output_features tx.body) _ features in
        let order = (verify_sorted-ok tx.body).0 sorted in
        record {
          light = (verify_weight-ok chain tx.body).0 light;
          inputs_order = order.0;
          outputs_order = order.1;
          kernels_order = order.2;
          apart = (verify_cut_through-ok tx.body order.0 order.1).0 cut;
          plain_outputs = (any-plain tx.body.outputs).0 (ground (arith, outs));
          no_coinbase = (any-coinbase tx.body.kernels).0 (ground (arith, kerns));
        },
    λ v.
        let light = (verify_weight-ok chain tx.body).1 v.light in
        let sorted = (verify_sorted-ok tx.body).1 v.inputs_order v.outputs_order v.kernels_order in
        let cut = (verify_cut_through-ok tx.body v.inputs_order v.outputs_order).1 v.apart in
        let outs = (any-plain tx.body.outputs).1 v.plain_outputs in
        let kerns = (any-coinbase tx.body.kernels).1 v.no_coinbase in
        rw (light, sorted, cut, outs, kerns, ◌>>◌) refl,
  )

  -- Whatever the bytes, a transaction that is read from them is valid.
  pub read-IsValid :
      (chain : ChainTypes) (bytes : List ℕ) (tx : Transaction) (rest : List ℕ)
      → read p chain bytes ≡ ok (tx, rest)
      → IsValid p chain tx
  unfolding read or_corrupted
  read-IsValid chain bytes tx rest e =
      let (offset, bytes1, _, e1) = >>=-ok read_blinding_factor _ bytes e in
      let (body, bytes2, _, e2) = >>=-ok (read_body p chain) _ bytes1 e1 in
      let read_tx : Transaction = record { offset = offset; body = body } in
      let (_, _, valid, same) = >>=-ok (or_corrupted (validate_read p chain read_tx)) _ bytes2 e2 in
      let that : read_tx ≡ tx = cc in
      subst (IsValid p chain) that (
        (validate_read-IsValid chain read_tx).0
          (or_corrupted-ok (validate_read p chain read_tx) bytes2 valid))
