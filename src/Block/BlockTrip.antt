-- ===== src/Block/BlockTrip.antt =====
-- A block is read back from its bytes.
use epic.Base.{ℕ, ◌≤◌, ◌≡◌, refl, ap, ◌∙◌, arith, List, ◌++◌, some, length}
use epic.Base.Results.{ok, ◌>>◌, >>=-eq-ok}
use epic.Consensus.Emission.{ChainTypes}
use epic.Ser.{Packages, ReadsBack, full}
use epic.Base.Predicates.{All}
use epic.Transaction.Kernel as kernel
use epic.Transaction.Outputs as outputs
use epic.Transaction.Body.{
  TransactionBody, as_block, max_block_weight, max_weight, body_weight_as_block, verify_weight,
  verify_sorted, validate_body, write_body, read_body, or_corrupted,
}
use epic.Transaction.RoundTrip.{read_body-write_body}
use epic.Pow.Proof.{quiet, then_read}
use epic.Pow.ProofTrip.{then_read-append, then_read-last}
use epic.Block.Header.{Outside, write_header, read_header}
use epic.Block.HeaderTrip as header
use epic.Block.HeaderTrip.{read-write_header}
use epic.Block.Checks.{Block, write, read}

-- What the types and the checks of the header say of a block.
pub record IsTyped (o : Outside) (b : Block) : Type 0 where
  pub header_typed : header.IsTyped o b.header
  pub inputs_typed : All (λ i. length (i.commit) ≡ 33) b.body.inputs
  pub outputs_typed : All outputs.IsTyped b.body.outputs
  pub kernels_typed : All kernel.IsTyped b.body.kernels

verify_weight_of_block-le :
    (chain : ChainTypes) (b : TransactionBody)
    → verify_weight chain as_block b ≡ ok tt
    → body_weight_as_block b ≤ max_block_weight chain
unfolding verify_weight max_weight
verify_weight_of_block-le chain b e = ground (arith, e)

-- If the byte order reads back what it writes, a typed block with a header as in the round trip of
-- headers, whose body passes its validate_read as a block, is read back from its bytes, and what
-- follows them is left.
pub read-write_block :
    (p : Packages) (o : Outside) (chain : ChainTypes) (b : Block) (rest : List ℕ)
    → ReadsBack p
    → IsTyped o b
    → validate_body p chain as_block b.body ≡ ok tt
    → read p chain o (write p chain full b ++ rest) ≡ some (ok (b, rest))
unfolding read write validate_body or_corrupted
read-write_block p o chain b rest laws typed valid =
    let (_, v1, _) =
      >>=-eq-ok (verify_weight chain as_block b.body >> verify_sorted p b.body) _ valid in
    let (_, heavy, sorted) = >>=-eq-ok (verify_weight chain as_block b.body) _ v1 in
    then_read-append (read_header p o chain) _ (write_header p chain full b.header) _ rest b.header
      (read-write_header p laws o chain b.header _ typed.header_typed)
    ∙ then_read-last (quiet (read_body p chain)) _ (write_body p b.body) rest b.body (
        ap some (
          read_body-write_body p laws chain b.body rest typed.inputs_typed typed.outputs_typed
            typed.kernels_typed (verify_weight_of_block-le chain b.body heavy) sorted))
    ∙ rw (valid, then_read) refl
