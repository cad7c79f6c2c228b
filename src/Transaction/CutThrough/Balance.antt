-- ===== src/Transaction/CutThrough/Balance.antt =====
-- What `cut_through` gives: the balance of each hash, and nothing left to cut.
use epic.Base.{
  ℕ, ◌+◌, ◌≤◌, ◌≡◌, refl, arith, true, false, List, [], ◌∷◌, none, some, ap, Bool-cases, ◌⊎◌, inl,
  inr, ◌==◌, length,
}
use epic.Transaction.Sorting.{count, sort, Ordered, count-sort, Ordered-sort, count-below}
use epic.Transaction.CutThrough.{has_equal_pair, cut_through}
use epic.Transaction.CutThrough.Merge.{cut, cut_balance, cut_disjoint}
use epic.Transaction.CutThrough.InPlace.{Progress, cut_loop-cut}

module _ {A : Type 0} (key : A → ℕ) where
  -- In order, equal neighbours are all the duplicates.
  has_equal_pair-count :
      (low : ℕ) (xs : List A)
      → Ordered key low xs
      → ((has_equal_pair key xs ≡ true) × (k : ℕ) × (2 ≤ count key k xs))
        ⊎ ((has_equal_pair key xs ≡ false) × ((k : ℕ) → count key k xs ≤ 1))
  unfolding has_equal_pair count Ordered
  has_equal_pair-count low [] order = inr (refl, λ k. omega arith)
  has_equal_pair-count low (x ∷ []) order = inr (refl, λ k. ground arith)
  has_equal_pair-count low (x ∷ y ∷ ys) (first, order) =
      elim (has_equal_pair-count (key x) (y ∷ ys) order) [
        | inl (e, k, two) ↦ inl (ground (arith, e), k, ground (arith, two))
        | inr (e, once) ↦ elim (Bool-cases (key x == key y)) [
          | inl same ↦ inl (ground (arith, same), key x, ground (arith, same))
          | inr new ↦ inr (
            ground (arith, e, new),
            λ k. ground (arith, new, once k, count-below key k (key y) ys order.1, order.0),
          )
        ]
      ]

module _ {In Out : Type 0} (key_in : In → ℕ) (key_out : Out → ℕ) where
  -- Twice one hash among the outputs is an error. Else each hash keeps its balance of inputs and
  -- outputs, and none is left on both sides.
  pub cut_through_lem :
      (ins : List In) (outs : List Out)
      → ((k : ℕ) × (2 ≤ count key_out k outs) × (cut_through key_in key_out ins outs ≡ none))
        ⊎ ((ins' : List In) × (outs' : List Out) × (cut_through key_in key_out ins outs
              ≡ some (ins', outs'))
            × ((k : ℕ) → count key_out k outs ≤ 1)
            × ((k : ℕ)
                → count key_in k ins' + count key_out k outs
                  ≡ count key_in k ins + count key_out k outs')
            × ((k : ℕ) → (count key_in k ins' ≡ 0) ⊎ (count key_out k outs' ≡ 0)))
  unfolding cut_through
  cut_through_lem ins outs =
      let is = sort key_in ins in
      let os = sort key_out outs in
      let start : Progress [] is is 0 0 = record {
        free = [];
        whole = refl;
        size = refl;
        place = refl;
      } in
      let begin : Progress [] os os 0 0 = record {
        free = [];
        whole = refl;
        size = refl;
        place = refl;
      } in
      let looped =
        cut_loop-cut key_in key_out (length is + length os)
          (record { inputs = is; outputs = os; inputs_idx = 0; outputs_idx = 0; ncut = 0 }) [] is []
          os start begin (omega arith) in
      elim (has_equal_pair-count key_out 0 os (Ordered-sort key_out outs)) [
        | inl (e, k, two) ↦
            inl (k, omega (arith, two, count-sort key_out k outs), rw (e, cut_through) refl)
        | inr (e, once) ↦ inr (
          (cut key_in key_out is os).0,
          (cut key_in key_out is os).1,
          rw (e, cut_through) (ap some looped),
          λ k. omega (arith, once k, count-sort key_out k outs),
          λ k. omega (
            arith,
            cut_balance key_in key_out k is os,
            count-sort key_in k ins,
            count-sort key_out k outs,
          ),
          λ k.
              cut_disjoint key_in key_out k 0 0 is os (Ordered-sort key_in ins)
                (Ordered-sort key_out outs),
        )
      ]
