-- ===== src/Transaction/Validation.antt =====
-- What `validate_read` checks, told of the hashes and not of the loops.
use Prim.Native.Nat.{compare, Ordering}
use epic.Base.{ℕ, ◌<◌, ◌≡◌, ◌⊎◌, inl, inr, refl, arith, List, [], ◌∷◌}
use epic.Base.Results.{ok, err}
use epic.Ser.{verify_sorted_and_unique}
use epic.Transaction.Errors.{cut_through}
use epic.Transaction.Body.{merge_hashes}

-- From the first to the last, each hash comes after the one ahead of it.
unfoldable pub Increasing : List ℕ → Type 0
Increasing [] = Unit
Increasing (x ∷ []) = Unit
Increasing (x ∷ y ∷ ys) = (x < y) × Increasing (y ∷ ys)

-- A hash stands in a list.
unfoldable pub Has : ℕ → List ℕ → Type 0
Has h [] = ⊥
Has h (x ∷ xs) = (h ≡ x) ⊎ Has h xs

pub verify_sorted_and_unique-ok :
    (xs : List ℕ)
    → (verify_sorted_and_unique xs ≡ ok tt → Increasing xs)
      × (Increasing xs → verify_sorted_and_unique xs ≡ ok tt)
unfolding verify_sorted_and_unique Increasing
verify_sorted_and_unique-ok [] = (λ e. tt, λ e. refl)
verify_sorted_and_unique-ok (x ∷ []) = (λ e. tt, λ e. refl)
verify_sorted_and_unique-ok (x ∷ y ∷ ys) = ground (arith, verify_sorted_and_unique-ok (y ∷ ys))

Has-below : (h x : ℕ) (xs : List ℕ) → Increasing (x ∷ xs) → h < x → Has h (x ∷ xs) → ⊥
unfolding Has Increasing
Has-below h x [] order below (inl e) = omega (arith, e, below)
Has-below h x [] order below (inr has) = elim has [ ]
Has-below h x (y ∷ ys) order below (inl e) = omega (arith, e, below)
Has-below h x (y ∷ ys) (le, order) below (inr has) =
    Has-below h y ys order (omega (arith, le, below)) has

rest-Increasing : (x : ℕ) (xs : List ℕ) → Increasing (x ∷ xs) → Increasing xs
unfolding Increasing
rest-Increasing x [] order = tt
rest-Increasing x (y ∷ ys) (le, order) = order

compare_cases :
    (a b : ℕ)
    → ((compare a b ≡ Ordering.lt) × (a < b))
      ⊎ (((compare a b ≡ Ordering.eq) × (a ≡ b)) ⊎ ((compare a b ≡ Ordering.gt) × (b < a)))
compare_cases a b = ground arith

-- Of two lists in order: the loop passes and they share no hash, or it fails and they share one.
pub merge_hashes-cases :
    (xs ys : List ℕ)
    → Increasing xs
    → Increasing ys
    → ((merge_hashes xs ys ≡ ok tt) × ((h : ℕ) → Has h xs → Has h ys → ⊥))
      ⊎ ((merge_hashes xs ys ≡ err cut_through) × (h : ℕ) × Has h xs × Has h ys)
unfolding merge_hashes Has
merge_hashes-cases [] ys p q = inl (refl, λ h has _. has)
merge_hashes-cases (x ∷ xs) [] p q = inl (refl, λ h _ has. has)
merge_hashes-cases (x ∷ xs) (y ∷ ys) p q = elim (compare_cases x y) [
  | inl (e, lt) ↦ elim (merge_hashes-cases xs (y ∷ ys) (rest-Increasing x xs p) q) [
    | inl (passes, apart) ↦ inl (
      rw (e, merge_hashes) passes,
      λ h a b. elim a [
        | inl same ↦ Has-below h y ys q (omega (arith, same, lt)) b
        | inr has ↦ apart h has b
      ],
    )
    | inr (fails, h, a, b) ↦ inr (rw (e, merge_hashes) fails, h, inr a, b)
  ]
  | inr (inl (e, eq)) ↦ inr (rw (e, merge_hashes) refl, x, inl refl, inl eq)
  | inr (inr (e, gt)) ↦ elim (merge_hashes-cases (x ∷ xs) ys p (rest-Increasing y ys q)) [
    | inl (passes, apart) ↦ inl (
      rw (e, merge_hashes) passes,
      λ h a b. elim b [
        | inl same ↦ Has-below h x xs p (omega (arith, same, gt)) a
        | inr has ↦ apart h a has
      ],
    )
    | inr (fails, h, a, b) ↦ inr (rw (e, merge_hashes) fails, h, a, inr b)
  ]
]
