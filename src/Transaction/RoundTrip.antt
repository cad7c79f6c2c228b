-- ===== src/Transaction/RoundTrip.antt =====
-- A transaction that `validate_read` takes is read back from its bytes.
use epic.Base.{ℕ, ◌≤◌, ◌≡◌, refl, ◌∙◌, arith, List, ◌++◌, length, ltb, false, if◌then◌else◌}
use epic.Base.Results.{ok, ◌>>◌, >>=-eq-ok}
use epic.Consensus.Emission.{ChainTypes, automated_testing, user_testing, floonet, mainnet}
use epic.Ser.{
  Packages, ReadsBack, full, write_uint, read_uint, write_vec, read_multi, read_blinding_factor,
  secret_key_size,
}
use epic.Base.Predicates.{All}
use epic.Ser.Codec.{
  read_fixed_bytes-append, bind-append, bind-last, read_uint-write_uint, read_multi-write_vec,
}
use epic.Transaction.Codec.{read-write_kernel, read-write_input, read-write_output}
use epic.Transaction.Kernel as kernel
use epic.Transaction.Outputs as outputs
use epic.Transaction.Body.{
  TransactionBody, Transaction, as_transaction, max_block_weight, max_weight, weight_as_block,
  body_weight_as_block, verify_weight, verify_sorted, validate_body, validate_read, init,
  write_body, write, or_corrupted, read_lists, read_body, read,
}

-- What the types say of a transaction's lists and its offset.
pub record IsTyped (tx : Transaction) : Type 0 where
  pub offset_size : length tx.offset ≡ secret_key_size
  pub inputs_typed : All (λ i. length (i.commit) ≡ 33) tx.body.inputs
  pub outputs_typed : All outputs.IsTyped tx.body.outputs
  pub kernels_typed : All kernel.IsTyped tx.body.kernels

max_block_weight-le : (chain : ChainTypes) → max_block_weight chain ≤ 40000
max_block_weight-le automated_testing = omega arith
max_block_weight-le user_testing = omega arith
max_block_weight-le floonet = omega arith
max_block_weight-le mainnet = omega arith

-- A weight that a block may have bounds the lengths.
pub weight_as_block-le :
    (chain : ChainTypes) (i o k : ℕ)
    → weight_as_block i o k ≤ max_block_weight chain
    → (i ≤ 40000) × (o ≤ 40000) × (k ≤ 40000)
unfolding weight_as_block
weight_as_block-le chain i o k light = omega (arith, light, max_block_weight-le chain)

verify_weight-le :
    (chain : ChainTypes) (b : TransactionBody)
    → verify_weight chain as_transaction b ≡ ok tt
    → body_weight_as_block b ≤ max_block_weight chain
unfolding verify_weight max_weight
verify_weight-le chain b e = ground (arith, e)

module _ (p : Packages) (laws : ReadsBack p) (chain : ChainTypes) where
  read_lists-write :
      (b : TransactionBody) (rest : List ℕ)
      → All (λ i. length (i.commit) ≡ 33) b.inputs
      → All outputs.IsTyped b.outputs
      → All kernel.IsTyped b.kernels
      → body_weight_as_block b ≤ max_block_weight chain
      → verify_sorted p b ≡ ok tt
      → read_lists p chain (length b.inputs) (length b.outputs) (length b.kernels) (
          (write_vec (outputs.write_input p) b.inputs
            ++ (write_vec (outputs.write_output p full) b.outputs
                ++ write_vec (kernel.write p) b.kernels))
          ++ rest)
        ≡ ok (b, rest)
  unfolding read_lists init body_weight_as_block or_corrupted
  read_lists-write b rest typed_i typed_o typed_k light sorted =
      let few =
        weight_as_block-le chain (length b.inputs) (length b.outputs) (length b.kernels) light in
      bind-append (read_multi (outputs.read_input p) (length b.inputs)) _
        (write_vec (outputs.write_input p) b.inputs) _ rest b.inputs
        (read_multi-write_vec (outputs.write_input p) (outputs.read_input p) _
          (read-write_input p laws) _ b.inputs _ refl (omega (arith, few.0)) typed_i)
      ∙ bind-append (read_multi (outputs.read_output p) (length b.outputs)) _
          (write_vec (outputs.write_output p full) b.outputs) _ rest b.outputs
          (read_multi-write_vec (outputs.write_output p full) (outputs.read_output p) _
            (read-write_output p laws) _ b.outputs _ refl (omega (arith, few.1)) typed_o)
      ∙ bind-last (read_multi (kernel.read p) (length b.kernels)) _
          (write_vec (kernel.write p) b.kernels) rest b.kernels
          (read_multi-write_vec (kernel.write p) (kernel.read p) _ (read-write_kernel p laws) _
            b.kernels rest refl (omega (arith, few.1)) typed_k)
      ∙ rw (sorted, ◌>>◌) refl

  pub read_body-write_body :
      (b : TransactionBody) (rest : List ℕ)
      → All (λ i. length (i.commit) ≡ 33) b.inputs
      → All outputs.IsTyped b.outputs
      → All kernel.IsTyped b.kernels
      → body_weight_as_block b ≤ max_block_weight chain
      → verify_sorted p b ≡ ok tt
      → read_body p chain (write_body p b ++ rest) ≡ ok (b, rest)
  unfolding read_body write_body body_weight_as_block
  read_body-write_body b rest typed_i typed_o typed_k light sorted =
      let few =
        weight_as_block-le chain (length b.inputs) (length b.outputs) (length b.kernels) light in
      let light_enough : ltb (max_block_weight chain)
            (weight_as_block (length b.inputs) (length b.outputs) (length b.kernels))
          ≡ false =
        ground (arith, light) in
      let back : (n : ℕ) (rest : List ℕ)
          → n ≤ 40000
          → read_uint p 8 (write_uint p 8 n ++ rest) ≡ ok (n, rest) =
        λ n rest le. read_uint-write_uint p laws 8 n rest (omega (arith, le)) in
      bind-append (read_uint p 8) _ (write_uint p 8 (length b.inputs)) _ rest (length b.inputs)
        (back _ _ few.0)
      ∙ bind-append (read_uint p 8) _ (write_uint p 8 (length b.outputs)) _ rest (length b.outputs)
          (back _ _ few.1)
      ∙ bind-append (read_uint p 8) _ (write_uint p 8 (length b.kernels)) _ rest (length b.kernels)
          (back _ _ few.2)
      ∙ rw (light_enough, if◌then◌else◌)
          (read_lists-write b rest typed_i typed_o typed_k light sorted)

  -- If the byte order reads back what it writes, a typed transaction that passes `validate_read` is
  -- read back from its bytes, and what follows them is left.
  pub read-write_tx :
      (tx : Transaction) (rest : List ℕ)
      → IsTyped tx
      → validate_read p chain tx ≡ ok tt
      → read p chain (write p tx ++ rest) ≡ ok (tx, rest)
  unfolding read write read_blinding_factor or_corrupted validate_read validate_body
  read-write_tx tx rest typed valid =
      let (_, v1, _) = >>=-eq-ok (validate_body p chain as_transaction tx.body) _ valid in
      let (_, v2, _) =
        >>=-eq-ok (verify_weight chain as_transaction tx.body >> verify_sorted p tx.body) _ v1 in
      let (_, heavy, sorted) = >>=-eq-ok (verify_weight chain as_transaction tx.body) _ v2 in
      bind-append read_blinding_factor _ tx.offset _ rest tx.offset
        (read_fixed_bytes-append 32 tx.offset _ (omega arith) typed.offset_size)
      ∙ bind-last (read_body p chain) _ (write_body p tx.body) rest tx.body (
          read_body-write_body tx.body rest typed.inputs_typed typed.outputs_typed
            typed.kernels_typed (verify_weight-le chain tx.body heavy) sorted)
      ∙ rw (valid, or_corrupted) refl
