-- ===== src/Block/Parts.antt =====
-- What the checks of a block in core/src/core/block.rs ask of its outputs, kernels and body.
use epic.Base.{
  ℕ, ◌+◌, ◌-◌, ◌%◌, ◌^◌, ◌≤◌, ◌≡◌, ◌⊎◌, inl, inr, refl, arith, min, true, not, List, [], ◌∷◌, map,
  if◌then◌else◌, Bool-cases,
}
use epic.Base.Results.{Result, ok, err, ◌>>◌, map_err, >>=-eq-ok}
use epic.Consensus.Emission.{
  ChainTypes, reward_foundation, reward, reward_at_height, add_reward_foundation,
}
use epic.Ser.{Packages}
use epic.Base.Predicates.{All}
use epic.Committed.{Curve, retain, same_bytes, same_bytes-≡}
use epic.Transaction.Kernel as kernel
use epic.Transaction.Kernel.{TxKernel}
use epic.Transaction.Outputs as outputs
use epic.Transaction.Outputs.{Input, Output, hash_input, hash_output, is_coinbase_output}
use epic.Transaction.Body.{
  TransactionBody, as_block, max_block_weight, max_weight, body_weight_as_block, verify_weight,
  verify_sorted, validate_body, fee,
}
use epic.Transaction.Building.{sum_fees, fee-sum_fees}
use epic.Transaction.Reading.{verify_sorted-ok, verify_cut_through-ok}
use epic.Transaction.Validation.{Increasing, Has}
use epic.Transaction.Aggregate.{
  has_wrong_features, verify_kernel, verify_kernels, verify_proofs, validate_in_full,
}
use epic.Block.Checks.{Block, verify_lock_heights, total_fees, has_commit}

pub map_err-ok :
    {E E' A : Type 0} (f : E → E') (r : Result E A) {a : A} → map_err f r ≡ ok a → r ≡ ok a
map_err-ok f (err e) given = cc
map_err-ok f (ok b) given = cc

-- A comparison that fails with an error passes for equal bytes alone.
pub unless_same-ok :
    {E A : Type 0} (xs ys : List ℕ) (e : E) (a : A) {a' : A}
    → (if not (same_bytes xs ys) then err e else ok a) ≡ ok a'
    → (xs ≡ ys) × (a ≡ a')
unless_same-ok xs ys e a passes = elim (Bool-cases (same_bytes xs ys)) [
  | inl same ↦ (same_bytes-≡ xs ys same, cc (passes, same))
  | inr other ↦ cc (passes, other)
]

-- Some element has the property.
unfoldable pub Some : {A : Type 0} → (A → Type 0) → List A → Type 0
Some P [] = ⊥
Some P (x ∷ xs) = P x ⊎ Some P xs

is_coinbase-≡ : (f : outputs.OutputFeatures) → outputs.is_coinbase f ≡ true → f ≡ outputs.coinbase
unfolding outputs.is_coinbase
is_coinbase-≡ outputs.plain e = cc
is_coinbase-≡ outputs.coinbase e = refl

pub has_commit-Some :
    (commit : List ℕ) (os : List Output)
    → has_commit commit (retain is_coinbase_output os) ≡ true
    → Some (λ o. (o.features ≡ outputs.coinbase) × (o.commit ≡ commit)) os
unfolding has_commit retain is_coinbase_output Some
has_commit-Some commit [] found = cc
has_commit-Some commit (o ∷ os) found = elim (Bool-cases (is_coinbase_output o)) [
  | inr plain ↦ inr (has_commit-Some commit os (rw plain at found))
  | inl reward ↦
      let found' : has_commit commit (o ∷ retain is_coinbase_output os) ≡ true =
        rw reward at found in
      elim (Bool-cases (same_bytes o.commit commit)) [
        | inl same ↦ inl (is_coinbase-≡ o.features reward, same_bytes-≡ o.commit commit same)
        | inr other ↦ inr (has_commit-Some commit os (rw other at found'))
      ]
]

pub verify_lock_heights-ok :
    (height : ℕ) (ks : List TxKernel)
    → verify_lock_heights height ks ≡ ok tt
    → All (λ k. TxKernel.lock_height k ≤ height) ks
unfolding verify_lock_heights
verify_lock_heights-ok height [] passes = tt
verify_lock_heights-ok height (k ∷ ks) passes =
    ground (arith, passes, verify_lock_heights-ok height ks)

-- The amount of the coinbase: the reward and the fees up to the greatest word, and the levies of the
-- day around it.
unfoldable pub due : ChainTypes → Block → ℕ
due chain b =
    (min (reward_at_height b.header.height + sum_fees b.body.kernels) (2 ^ 64 - 1)
      + add_reward_foundation chain b.header.height)
    % 2 ^ 64

pub reward_foundation-due :
    (chain : ChainTypes) (b : Block)
    → reward_foundation chain (total_fees b) b.header.height ≡ due chain b
unfolding reward_foundation reward total_fees due fee
reward_foundation-due chain b = let fees = fee-sum_fees b.body in rw fees (ground arith)

-- A message to sign, and a signature of it under the excess as a key.
unfoldable pub IsSigned : Packages → Curve → TxKernel → Type 0
IsSigned p c k =
    (msg : ℕ) × (pubkey : List ℕ) × (kernel.msg_to_sign p k ≡ ok msg)
    × (c.to_pubkey k.excess ≡ ok pubkey)
    × (c.verify_single k.excess_sig msg pubkey ≡ true)

verify_kernel-IsSigned :
    (p : Packages) (c : Curve) (k : TxKernel) → verify_kernel p c k ≡ ok tt → IsSigned p c k
unfolding verify_kernel IsSigned
verify_kernel-IsSigned p c k passes = elim (Bool-cases (has_wrong_features k)) [
  | inl wrong ↦ cc (passes, wrong)
  | inr right ↦
      let e = rw right at passes in
      let (pubkey, key_ok, e1) = >>=-eq-ok _ _ e in
      let (msg, msg_ok, e2) = >>=-eq-ok (kernel.msg_to_sign p k) _ e1 in
      (msg, pubkey, msg_ok, map_err-ok _ _ key_ok, ground (arith, e2))
]

verify_kernels-IsSigned :
    (p : Packages) (c : Curve) (ks : List TxKernel)
    → verify_kernels p c ks ≡ ok tt
    → All (IsSigned p c) ks
unfolding verify_kernels
verify_kernels-IsSigned p c [] passes = tt
verify_kernels-IsSigned p c (k ∷ ks) passes =
    let (_, first, rest) = >>=-eq-ok (verify_kernel p c k) _ passes in
    (verify_kernel-IsSigned p c k first, verify_kernels-IsSigned p c ks rest)

verify_weight-le :
    (chain : ChainTypes) (b : TransactionBody)
    → verify_weight chain as_block b ≡ ok tt
    → body_weight_as_block b ≤ max_block_weight chain
unfolding verify_weight max_weight
verify_weight-le chain b passes = ground (arith, passes)

module _ (p : Packages) (c : Curve) (chain : ChainTypes) where
  -- The body that the full validation takes.
  pub validate_in_full-ok :
      (b : TransactionBody)
      → validate_in_full p c chain as_block b ≡ ok tt
      → (body_weight_as_block b ≤ max_block_weight chain)
        × Increasing (map (hash_input p) b.inputs)
        × Increasing (map (hash_output p) b.outputs)
        × Increasing (map (kernel.hash p) b.kernels)
        × ((h : ℕ)
            → Has h (map (hash_input p) b.inputs)
            → Has h (map (hash_output p) b.outputs)
            → ⊥)
        × (verify_proofs c b.outputs ≡ ok tt)
        × All (IsSigned p c) b.kernels
  unfolding validate_in_full validate_body
  validate_in_full-ok b passes =
      let (_, e1, signed) =
        >>=-eq-ok (validate_body p chain as_block b >> verify_proofs c b.outputs) _ passes in
      let (_, body, proofs) = >>=-eq-ok (validate_body p chain as_block b) _ e1 in
      let (_, e2, cut) = >>=-eq-ok (verify_weight chain as_block b >> verify_sorted p b) _ body in
      let (_, light, sorted) = >>=-eq-ok (verify_weight chain as_block b) _ e2 in
      let order = (verify_sorted-ok p b).0 sorted in
      (
        verify_weight-le chain b light,
        order.0,
        order.1,
        order.2,
        (verify_cut_through-ok p b order.0 order.1).0 cut,
        proofs,
        verify_kernels-IsSigned p c b.kernels signed,
      )
