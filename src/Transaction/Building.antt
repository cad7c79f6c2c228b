-- ===== src/Transaction/Building.antt =====
-- Building bodies and kernels: order, fees and the features of kernels.
use epic.Base.{
  ℕ, ◌+◌, ◌-◌, ◌<◌, ◌≤◌, ◌≡◌, ◌^◌, ◌↔◌, inl, inr, ◌∙◌, arith, false, List, [], ◌∷◌, map, min,
}
use epic.Base.Results.{Result-cases, ok}
use epic.Ser.{Packages}
use epic.Transaction.Kernel as kernel
use epic.Transaction.Kernel.{TxKernel}
use epic.Transaction.Outputs.{Input, Output, hash_input, hash_output}
use epic.Transaction.Body.{
  TransactionBody, verify_sorted, with_input, with_output, with_kernel, fee, fee_from,
}
use epic.Transaction.Sorting.{insert_new}
use epic.Transaction.Validation.{Increasing}
use epic.Transaction.Reading.{verify_sorted-ok}
use epic.Transaction.Aggregate.{has_wrong_features}

module _ {A : Type 0} (key : A → ℕ) where
  -- Past an item that comes first, the order is kept.
  insert_new-Increasing_after :
      (y x : A) (ys : List A)
      → key y < key x
      → Increasing (map key (y ∷ ys))
      → Increasing (map key (y ∷ insert_new key x ys))
  unfolding Increasing insert_new
  insert_new-Increasing_after y x [] lt order = (lt, tt)
  insert_new-Increasing_after y x (z ∷ zs) lt (le, order) =
      ground (arith, insert_new-Increasing_after z x zs)

  insert_new-Increasing :
      (x : A) (xs : List A) → Increasing (map key xs) → Increasing (map key (insert_new key x xs))
  unfolding Increasing insert_new
  insert_new-Increasing x [] order = tt
  insert_new-Increasing x (y ∷ ys) order = ground (arith, insert_new-Increasing_after y x ys)

module _ (p : Packages) where
  -- A body in order stays so with an input, an output or a kernel more.
  pub with_items-verify_sorted :
      (b : TransactionBody) (i : Input) (o : Output) (k : TxKernel)
      → verify_sorted p b ≡ ok tt
      → (verify_sorted p (with_input p b i) ≡ ok tt)
        × (verify_sorted p (with_output p b o) ≡ ok tt)
        × (verify_sorted p (with_kernel p b k) ≡ ok tt)
  unfolding with_input with_output with_kernel
  with_items-verify_sorted b i o k sorted =
      let (is, os, ks) = (verify_sorted-ok p b).0 sorted in
      (
        (verify_sorted-ok p (with_input p b i)).1
            (insert_new-Increasing (hash_input p) i b.inputs is) os ks,
        (verify_sorted-ok p (with_output p b o)).1 is
            (insert_new-Increasing (hash_output p) o b.outputs os) ks,
        (verify_sorted-ok p (with_kernel p b k)).1 is os
            (insert_new-Increasing (kernel.hash p) k b.kernels ks),
      )

unfoldable pub sum_fees : List TxKernel → ℕ
sum_fees [] = 0
sum_fees (k ∷ kernels) = k.fee + sum_fees kernels

fee_from-sum :
    (acc : ℕ) (kernels : List TxKernel)
    → acc ≤ 2 ^ 64 - 1
    → fee_from acc kernels ≡ min (acc + sum_fees kernels) (2 ^ 64 - 1)
unfolding fee_from sum_fees
fee_from-sum acc [] fits = omega (arith, fits)
fee_from-sum acc (k ∷ kernels) fits =
    fee_from-sum (min (acc + k.fee) (2 ^ 64 - 1)) kernels (omega arith) ∙ omega arith

-- The fee of a body is the sum of its kernels' fees, or the greatest word where the sum is greater.
pub fee-sum_fees : (b : TransactionBody) → fee b ≡ min (sum_fees b.kernels) (2 ^ 64 - 1)
unfolding fee
fee-sum_fees b = fee_from-sum 0 b.kernels (omega arith) ∙ omega arith

-- A kernel passes the first check of `verify` where there is a message to sign, and only there.
pub msg_to_sign-has_wrong_features :
    (p : Packages) (k : TxKernel)
    → (has_wrong_features k ≡ false) ↔ ((msg : ℕ) × (kernel.msg_to_sign p k ≡ ok msg))
unfolding has_wrong_features kernel.msg_to_sign kernel.kernel_sig_msg kernel.is_coinbase
    kernel.is_height_locked
msg_to_sign-has_wrong_features p k = elim (Result-cases (kernel.msg_to_sign p k)) [
  | inl (e, fails) ↦ ground (arith, fails)
  | inr (msg, signs) ↦ (λ _. (msg, signs), λ _. ground (arith, signs))
]
