-- ===== src/Transaction/CutThrough/Merge.antt =====
-- The merge of two vectors in order that leaves out what stands in both.
use Prim.Native.Nat.{compare, Ordering}
use epic.Base.{ℕ, ◌+◌, ◌≤◌, ◌≡◌, refl, arith, List, [], ◌∷◌, ◌⊎◌, inl, inr}
use epic.Transaction.Sorting.{count, Ordered, count-below}

module _ {In Out : Type 0} (key_in : In → ℕ) (key_out : Out → ℕ) where
  unfoldable pub cut : List In → List Out → List In × List Out
  cut [] outs = ([], outs)
  cut (i ∷ ins) [] = (i ∷ ins, [])
  cut (i ∷ ins) (o ∷ outs) = elim (compare (key_in i) (key_out o)) [
    | Ordering.lt ↦ let (is, os) = cut ins (o ∷ outs) in (i ∷ is, os)
    | Ordering.gt ↦ let (is, os) = cut (i ∷ ins) outs in (is, o ∷ os)
    | Ordering.eq ↦ cut ins outs
  ]

  -- Every hash keeps its balance of inputs and outputs.
  pub cut_balance :
      (k : ℕ) (ins : List In) (outs : List Out)
      → count key_in k (cut ins outs).0 + count key_out k outs
        ≡ count key_in k ins + count key_out k (cut ins outs).1
  unfolding cut count
  cut_balance k [] outs = refl
  cut_balance k (i ∷ ins) [] = refl
  cut_balance k (i ∷ ins) (o ∷ outs) =
      ground
        (arith, cut_balance k ins (o ∷ outs), cut_balance k (i ∷ ins) outs, cut_balance k ins outs)

  count-cut-le :
      (k : ℕ) (ins : List In) (outs : List Out)
      → (count key_in k (cut ins outs).0 ≤ count key_in k ins)
        × (count key_out k (cut ins outs).1 ≤ count key_out k outs)
  unfolding cut count
  count-cut-le k [] outs = omega arith
  count-cut-le k (i ∷ ins) [] = omega arith
  count-cut-le k (i ∷ ins) (o ∷ outs) =
      ground (
        arith,
        count-cut-le k ins (o ∷ outs),
        count-cut-le k (i ∷ ins) outs,
        count-cut-le k ins outs,
      )

  -- In order, no hash is left on both sides.
  pub cut_disjoint :
      (k a b : ℕ) (ins : List In) (outs : List Out)
      → Ordered key_in a ins
      → Ordered key_out b outs
      → (count key_in k (cut ins outs).0 ≡ 0) ⊎ (count key_out k (cut ins outs).1 ≡ 0)
  unfolding cut count Ordered
  cut_disjoint k a b [] outs p q = inl refl
  cut_disjoint k a b (i ∷ ins) [] p q = inr refl
  cut_disjoint k a b (i ∷ ins) (o ∷ outs) (p, ps) (q, qs) = ground (
    arith,
    cut_disjoint k (key_in i) (key_out o) ins (o ∷ outs) ps (omega arith, qs),
    cut_disjoint k (key_in i) (key_out o) (i ∷ ins) outs (omega arith, ps) qs,
    cut_disjoint k (key_in i) (key_out o) ins outs ps qs,
    count-cut-le k ins (o ∷ outs),
    count-cut-le k (i ∷ ins) outs,
    count-below key_in k (key_in i) ins ps,
    count-below key_out k (key_out o) outs qs,
  )
