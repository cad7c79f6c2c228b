-- ===== src/Transaction/Sorting.antt =====
-- Vectors in the order of their items' hashes: `sort_unstable`, and the insertion at the place that
-- `binary_search` finds.
use epic.Base.{ℕ, ◌+◌, ◌≤◌, ◌<◌, ◌≡◌, refl, arith, List, [], ◌∷◌, leb, ltb, ◌==◌, if◌then◌else◌}

module _ {A : Type 0} (key : A → ℕ) where
  unfoldable pub insert_sorted : A → List A → List A
  insert_sorted x [] = x ∷ []
  insert_sorted x (y ∷ ys) = if leb (key x) (key y) then x ∷ y ∷ ys else y ∷ insert_sorted x ys

  -- Items with one hash are equal to the sort; their order is not told.
  unfoldable pub sort : List A → List A
  sort [] = []
  sort (x ∷ xs) = insert_sorted x (sort xs)

  -- `binary_search(x).err().map(|e| insert(e, x))` on a vector in order.
  unfoldable pub insert_new : A → List A → List A
  insert_new x [] = x ∷ []
  insert_new x (y ∷ ys) =
      if ltb (key x) (key y)
      then x ∷ y ∷ ys
      else if key x == key y
      then y ∷ ys
      else y ∷ insert_new x ys

  -- How many items have a hash.
  unfoldable pub count : ℕ → List A → ℕ
  count k [] = 0
  count k (x ∷ xs) = (if key x == k then 1 else 0) + count k xs

  -- No item comes before the bound or one ahead of it.
  unfoldable pub Ordered : ℕ → List A → Type 0
  Ordered low [] = Unit
  Ordered low (x ∷ xs) = (low ≤ key x) × Ordered (key x) xs

  count-insert_sorted :
      (k : ℕ) (x : A) (xs : List A) → count k (insert_sorted x xs) ≡ count k (x ∷ xs)
  unfolding count insert_sorted
  count-insert_sorted k x [] = refl
  count-insert_sorted k x (y ∷ ys) = ground (arith, count-insert_sorted k x ys)

  pub count-sort : (k : ℕ) (xs : List A) → count k (sort xs) ≡ count k xs
  unfolding count sort
  count-sort k [] = refl
  count-sort k (x ∷ xs) = omega (arith, count-insert_sorted k x (sort xs), count-sort k xs)

  Ordered-insert_sorted :
      (low : ℕ) (x : A) (xs : List A)
      → low ≤ key x
      → Ordered low xs
      → Ordered low (insert_sorted x xs)
  unfolding Ordered insert_sorted
  Ordered-insert_sorted low x [] first order = (first, tt)
  Ordered-insert_sorted low x (y ∷ ys) first (next, order) =
      ground (arith, Ordered-insert_sorted (key y) x ys)

  pub Ordered-sort : (xs : List A) → Ordered 0 (sort xs)
  unfolding Ordered sort
  Ordered-sort [] = tt
  Ordered-sort (x ∷ xs) = Ordered-insert_sorted 0 x (sort xs) (omega arith) (Ordered-sort xs)

  -- Below the bound there is none.
  pub count-below : (k low : ℕ) (xs : List A) → Ordered low xs → k < low → count k xs ≡ 0
  unfolding count Ordered
  count-below k low [] order below = refl
  count-below k low (x ∷ xs) (first, order) below = ground (arith, count-below k (key x) xs order)
