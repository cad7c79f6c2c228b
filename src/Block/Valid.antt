-- ===== src/Block/Valid.antt =====
-- What a block that `validate` takes satisfies.
use epic.Base.{
  ℕ, ◌≤◌, ◌≡◌, ◌≢◌, ◌⊎◌, inl, inr, sym, ap, ◌∙◌, arith, true, List, [], ◌∷◌, map, Bool-cases,
}
use epic.Base.Results.{ok, map_err, >>=-eq-ok}
use epic.Consensus.Emission.{ChainTypes, is_foundation_height, reward_foundation}
use epic.Ser.{Packages}
use epic.Base.Predicates.{All}
use epic.Committed.{
  Curve, retain, same_bytes, same_bytes-≡, same_bytes_refl, zero_factor, sum_commitments,
  sum_kernel_offsets, sum_kernel_excesses, verify_kernel_sums,
}
use epic.Transaction.Kernel as kernel
use epic.Transaction.Kernel.{TxKernel}
use epic.Transaction.Outputs as outputs
use epic.Transaction.Outputs.{Input, Output, hash_input, hash_output, is_coinbase_output}
use epic.Transaction.Body.{as_block, max_block_weight, body_weight_as_block, validate_body}
use epic.Transaction.Validation.{Increasing, Has}
use epic.Transaction.Aggregate.{verify_proofs, validate_in_full}
use epic.Block.Header.{overage}
use epic.Block.Checks.{
  Block, verify_kernel_lock_heights, total_fees, block_kernel_offset, verify_foundation,
  verify_coinbase, validate, transaction, secp,
}
use epic.Block.Parts.{
  map_err-ok, unless_same-ok, Some, has_commit-Some, verify_lock_heights-ok, due,
  reward_foundation-due, IsSigned, validate_in_full-ok,
}

module _ (p : Packages) (c : Curve) (chain : ChainTypes) where
  -- The offset of a block is what its total adds to that before, and none where they are the same.
  unfoldable pub IsOffset : Block → List ℕ → List ℕ → Type 0
  IsOffset b prev offset =
      ((b.header.total_kernel_offset ≡ prev) × (zero_factor ≡ offset))
      ⊎ ((b.header.total_kernel_offset ≢ prev)
          × (sum_kernel_offsets c (b.header.total_kernel_offset ∷ []) (prev ∷ []) ≡ ok offset))

  -- The weight, the order and the cut-through of the body; the range proofs; the signatures; the locks;
  -- an output of the foundation where it is due; the outputs of the coinbase less the amount due have
  -- the sum of its kernels; and the outputs less the inputs, with the overage, have the sum of the kernels
  -- with the offset of the block alone.
  pub record IsValid (load : ℕ → Output) (b : Block) (prev_kernel_offset kernel_sum : List ℕ)
      : Type 0 where
    pub light : body_weight_as_block b.body ≤ max_block_weight chain
    pub inputs_order : Increasing (map (hash_input p) b.body.inputs)
    pub outputs_order : Increasing (map (hash_output p) b.body.outputs)
    pub kernels_order : Increasing (map (kernel.hash p) b.body.kernels)
    pub apart :
        (h : ℕ)
        → Has h (map (hash_input p) b.body.inputs)
        → Has h (map (hash_output p) b.body.outputs)
        → ⊥
    pub proofs : verify_proofs c b.body.outputs ≡ ok tt
    pub signed : All (IsSigned p c) b.body.kernels
    pub unlocked : All (λ k. TxKernel.lock_height k ≤ b.header.height) b.body.kernels
    pub foundation :
        is_foundation_height chain b.header.height ≡ true
        → Some
            (λ o.
              (Output.features o ≡ outputs.coinbase)
              × (Output.commit o ≡ (load b.header.height).commit))
            b.body.outputs
    pub coinbase :
        (over sum : List ℕ) × (c.commit_value (due chain b) ≡ ok over)
        × (c.commit_sum
              (map (λ o. Output.commit o) (retain is_coinbase_output b.body.outputs))
              (over ∷ [])
            ≡ ok sum)
        × (c.commit_sum (map (λ k. TxKernel.excess k) (retain kernel.is_coinbase b.body.kernels)) []
            ≡ ok sum)
    pub balance :
        (offset sum : List ℕ) × IsOffset b prev_kernel_offset offset
        × (sum_commitments c
              (map (λ i. Input.commit i) b.body.inputs)
              (map (λ o. Output.commit o) b.body.outputs)
              (overage chain b.header)
            ≡ ok sum)
        × (sum_kernel_excesses c (map (λ k. TxKernel.excess k) b.body.kernels) offset
            ≡ ok (kernel_sum, sum))

  verify_foundation-Some :
      (load : ℕ → Output) (b : Block)
      → verify_foundation p c chain load b ≡ ok tt
      → is_foundation_height chain b.header.height ≡ true
      → Some
          (λ o.
            (Output.features o ≡ outputs.coinbase)
            × (Output.commit o ≡ (load b.header.height).commit))
          b.body.outputs
  unfolding verify_foundation
  verify_foundation-Some load b passes given =
      has_commit-Some _ b.body.outputs (ground (arith, passes, given))

  verify_coinbase-ok :
      (load : ℕ → Output) (b : Block)
      → verify_coinbase p c chain load b ≡ ok tt
      → (verify_foundation p c chain load b ≡ ok tt)
        × (over sum : List ℕ) × (c.commit_value (due chain b) ≡ ok over)
        × (c.commit_sum
              (map (λ o. Output.commit o) (retain is_coinbase_output b.body.outputs))
              (over ∷ [])
            ≡ ok sum)
        × (c.commit_sum (map (λ k. TxKernel.excess k) (retain kernel.is_coinbase b.body.kernels)) []
            ≡ ok sum)
  unfolding verify_coinbase
  verify_coinbase-ok load b passes =
      let (_, foundation, e1) = >>=-eq-ok (verify_foundation p c chain load b) _ passes in
      let (over, over_ok, e2) =
        >>=-eq-ok
          (map_err secp (c.commit_value (reward_foundation chain (total_fees b) b.header.height))) _
          e1 in
      let (outs, outs_ok, e3) = >>=-eq-ok _ _ e2 in
      let (kerns, kerns_ok, e4) = >>=-eq-ok _ _ e3 in
      let (equal, _) = unless_same-ok kerns outs _ _ e4 in
      (
        foundation,
        over,
        outs,
        ap c.commit_value (sym (reward_foundation-due chain b)) ∙ map_err-ok secp _ over_ok,
        map_err-ok secp _ outs_ok,
        map_err-ok secp _ kerns_ok ∙ ap ok equal,
      )

  block_kernel_offset-IsOffset :
      (b : Block) (prev_kernel_offset offset : List ℕ)
      → block_kernel_offset p c chain b prev_kernel_offset ≡ ok offset
      → IsOffset b prev_kernel_offset offset
  unfolding block_kernel_offset IsOffset
  block_kernel_offset-IsOffset b prev offset e =
      elim (Bool-cases (same_bytes b.header.total_kernel_offset prev)) [
        | inl same ↦
            let e' : ok zero_factor ≡ ok offset = rw same at e in inl (same_bytes-≡ _ _ same, cc e')
        | inr other ↦ inr (
          λ equal. (let self = same_bytes_refl prev in cc (other, equal, self)),
          map_err-ok _ _ (rw other at e),
        )
      ]

  verify_kernel_sums-balance :
      (inputs outs kernels : List (List ℕ)) (over : _) (offset utxo_sum kernel_sum : List ℕ)
      → verify_kernel_sums c inputs outs kernels over offset ≡ ok (utxo_sum, kernel_sum)
      → (sum_commitments c inputs outs over ≡ ok utxo_sum)
        × (sum_kernel_excesses c kernels offset ≡ ok (kernel_sum, utxo_sum))
  unfolding verify_kernel_sums
  verify_kernel_sums-balance inputs outs kernels over offset utxo_sum kernel_sum e =
      let (utxo, utxo_ok, e1) = >>=-eq-ok (sum_commitments c inputs outs over) _ e in
      let (sums, sums_ok, e2) = >>=-eq-ok (sum_kernel_excesses c kernels offset) _ e1 in
      let (equal, pair) = unless_same-ok utxo (sums.1) _ _ e2 in
      (
        utxo_ok ∙ ap (λ (z : List ℕ × List ℕ). ok (z.0)) pair,
        sums_ok
            ∙ ap (λ (t : List ℕ). ok (sums.0, t)) (sym equal)
            ∙ ap (λ (z : List ℕ × List ℕ). ok (z.1, z.0)) pair,
      )

  -- A block that `validate` takes, with the sum of kernels that is given back: its weight is at most the
  -- chain's greatest, the hashes of its inputs, outputs and kernels are each strictly increasing, and no
  -- hash stands on both sides; the range proofs pass, and each kernel has a message to sign and a
  -- signature of it; no kernel is locked above the height; where the foundation is due, an output of
  -- the coinbase has its commitment; the outputs of the coinbase less the amount due, of the reward, the
  -- plain sum of the fees and the levies in words of 64 bits, have the sum of the coinbase's kernels; and
  -- the outputs less the inputs, with the overage, have the sum of the kernels with the block's offset.
  pub validate-IsValid :
      (load : ℕ → Output) (b : Block) (prev_kernel_offset kernel_sum : List ℕ)
      → validate p c chain load b prev_kernel_offset ≡ ok kernel_sum
      → IsValid load b prev_kernel_offset kernel_sum
  unfolding validate verify_kernel_lock_heights validate_in_full validate_body
  validate-IsValid load b prev_kernel_offset kernel_sum passes =
      let (_, full, e1) =
        >>=-eq-ok (map_err transaction (validate_in_full p c chain as_block b.body)) _ passes in
      let (_, heights, e2) = >>=-eq-ok (verify_kernel_lock_heights b) _ e1 in
      let (_, coinbase, e3) = >>=-eq-ok (verify_coinbase p c chain load b) _ e2 in
      let (offset, offset_ok, e4) =
        >>=-eq-ok (block_kernel_offset p c chain b prev_kernel_offset) _ e3 in
      let (sums, sums_ok, e5) = >>=-eq-ok _ _ e4 in
      let last : sums.1 ≡ kernel_sum = cc in
      let paid = verify_coinbase-ok load b coinbase in
      let parts = validate_in_full-ok p c chain b.body (map_err-ok transaction _ full) in
      let (sum, kernels_sum) =
        verify_kernel_sums-balance _ _ _ _ offset (sums.0) (sums.1) (map_err-ok _ _ sums_ok) in
      record {
        light = parts.0;
        inputs_order = parts.1;
        outputs_order = parts.2;
        kernels_order = parts.3;
        apart = parts.4;
        proofs = parts.5;
        signed = parts.6;
        unlocked = verify_lock_heights-ok b.header.height b.body.kernels heights;
        foundation = verify_foundation-Some load b (paid.0);
        coinbase = (paid.1, paid.2, paid.3, paid.4, paid.5);
        balance = (
          offset,
          sums.0,
          block_kernel_offset-IsOffset b prev_kernel_offset offset offset_ok,
          sum,
          kernels_sum ∙ ap (λ (s : List ℕ). ok (s, sums.0)) last,
        );
      }
