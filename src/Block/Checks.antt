-- ===== src/Block/Checks.antt =====
-- Blocks of core/src/core/block.rs: reading, cut-through and the checks.
use epic.Base.{ℕ, Bool, true, false, not, List, [], ◌∷◌, ◌++◌, none, some, map, ltb, if◌then◌else◌}
use epic.Base.Results.{Result, ok, err, ◌>>=◌, ◌>>◌, map_err}
use epic.Consensus.Emission.{ChainTypes, is_foundation_height, reward_foundation}
use epic.Ser.{Packages, SerializationMode, full, hash}
use epic.Ser as ser
use epic.Committed.{Curve, retain, same_bytes, zero_factor, sum_kernel_offsets, verify_kernel_sums}
use epic.Transaction.Errors.{CommittedError}
use epic.Transaction.Errors as errors
use epic.Transaction.Kernel as kernel
use epic.Transaction.Kernel.{TxKernel}
use epic.Transaction.Outputs.{Input, Output, hash_input, hash_output, is_coinbase_output}
use epic.Transaction.Body.{
  TransactionBody, as_block, validate_body, write_body, read_body, init, or_corrupted, fee_from,
}
use epic.Transaction.Aggregate.{validate_in_full}
use epic.Transaction.CutThrough as cutting
use epic.Pow.Proof.{Panicking, quiet, then_read}
use epic.Block.Header.{BlockHeader, Outside, write_header, read_header, overage}

pub data Error : Type 0 where
  kernel_sum_mismatch invalid_total_kernel_sum coinbase_sum_mismatch : Error
  invalid_foundation_output too_heavy weight_exceeded : Error
  kernel_lock_height : ℕ → Error
  transaction : errors.Error → Error
  secp keychain : ℕ → Error
  merkle_proof : Error
  committed : CommittedError → Error
  cut_through_error : Error
  serialization : ser.Error → Error
  other : Error

pub record Block : Type 0 where
  pub header : BlockHeader
  pub body : TransactionBody

unfoldable pub verify_lock_heights : ℕ → List TxKernel → Result Error (Unit {0})
verify_lock_heights height [] = ok tt
verify_lock_heights height (k ∷ kernels) =
    let rest = verify_lock_heights height kernels in
    if ltb height k.lock_height then err (kernel_lock_height k.lock_height) else rest

unfoldable pub verify_kernel_lock_heights : Block → Result Error (Unit {0})
verify_kernel_lock_heights b = verify_lock_heights b.header.height b.body.kernels

unfoldable pub total_fees : Block → ℕ
total_fees b = fee_from 0 b.body.kernels

unfoldable pub with_reward : Block → Output → TxKernel → Block
with_reward b out kern = record b {
  body = record { inputs = b.body.inputs; outputs = out ∷ []; kernels = kern ∷ [] };
}

unfoldable pub with_coinbase : Block → Output × TxKernel → Output × TxKernel → Block
with_coinbase b reward foundation = record b {
  body = record {
    inputs = b.body.inputs;
    outputs = reward.0 ∷ foundation.0 ∷ [];
    kernels = reward.1 ∷ foundation.1 ∷ [];
  };
}

-- Whether an output of the foundation is there.
unfoldable pub has_commit : List ℕ → List Output → Bool
has_commit commit [] = false
has_commit commit (o ∷ outputs) =
    if same_bytes o.commit commit then true else has_commit commit outputs

module _ (p : Packages) (chain : ChainTypes) where
  unfoldable pub cut_through : Block → Result Error Block
  cut_through b =
      elim (cutting.cut_through (hash_input p) (hash_output p) b.body.inputs b.body.outputs) [
        | none ↦ err (transaction errors.aggregation_error)
        | some (inputs, outputs) ↦
            map_err transaction (init p inputs outputs b.body.kernels false) >>= λ body.
            ok (record b { body = body })
      ]

  unfoldable pub validate_read : Block → Result Error (Unit {0})
  validate_read b =
      map_err transaction (validate_body p chain as_block b.body) >> verify_kernel_lock_heights b

  unfoldable pub write : SerializationMode → Block → List ℕ
  write mode b =
      write_header p chain mode b.header ++ elim mode [ hash ↦ [] | full ↦ write_body p b.body ]

  -- The lock heights are not checked here.
  unfoldable pub read : Outside → Panicking Block
  read o = then_read (read_header p o chain) (λ header.
      then_read (quiet (read_body p chain)) (λ body.
        then_read (quiet (or_corrupted (validate_body p chain as_block body)))
          (λ _. quiet (ser.pure (record { header = header; body = body })))))

module _ (p : Packages) (c : Curve) (chain : ChainTypes) where
  unfoldable pub block_kernel_offset : Block → List ℕ → Result Error (List ℕ)
  block_kernel_offset b prev_kernel_offset =
      if same_bytes b.header.total_kernel_offset prev_kernel_offset
      then ok zero_factor
      else map_err committed
          (sum_kernel_offsets c (b.header.total_kernel_offset ∷ []) (prev_kernel_offset ∷ []))

  -- The output of the foundation at the height, which stands in a file, is a parameter.
  unfoldable pub verify_foundation : (ℕ → Output) → Block → Result Error (Unit {0})
  verify_foundation load b =
      if is_foundation_height chain b.header.height
      then (if has_commit (Output.commit (load b.header.height))
            (retain is_coinbase_output b.body.outputs)
          then ok tt
          else err invalid_foundation_output)
      else ok tt

  unfoldable pub verify_coinbase : (ℕ → Output) → Block → Result Error (Unit {0})
  verify_coinbase load b = do
    verify_foundation load b
    let cb_outs = retain is_coinbase_output b.body.outputs
    let cb_kerns = retain kernel.is_coinbase b.body.kernels
    over_commit ←
        map_err secp (c.commit_value (reward_foundation chain (total_fees b) b.header.height))
    out_adjust_sum ←
        map_err secp (c.commit_sum (map (λ o. Output.commit o) cb_outs) (over_commit ∷ []))
    kerns_sum ← map_err secp (c.commit_sum (map (λ k. TxKernel.excess k) cb_kerns) [])
    if not (same_bytes kerns_sum out_adjust_sum) then err coinbase_sum_mismatch else ok tt

  unfoldable pub validate : (ℕ → Output) → Block → List ℕ → Result Error (List ℕ)
  validate load b prev_kernel_offset = do
    map_err transaction (validate_in_full p c chain as_block b.body)
    verify_kernel_lock_heights b
    verify_coinbase load b
    offset ← block_kernel_offset b prev_kernel_offset
    sums ← map_err committed (
        verify_kernel_sums c (map (λ i. Input.commit i) b.body.inputs)
          (map (λ o. Output.commit o) b.body.outputs) (map (λ k. TxKernel.excess k) b.body.kernels)
          (overage chain b.header) offset)
    ok (sums.1)
