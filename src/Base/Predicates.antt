-- ===== src/Base/Predicates.antt =====
-- What holds of all the elements of a list.
use epic.Base.Lists.{get_elem?, set, take, drop}
use Prim.Native.Nat.{ℕ, zero, suc}
use mathlib.Core.Path.{◌≡◌, subst}
use mathlib.Core.List.{List, [], ◌∷◌, ◌++◌}
use mathlib.Core.Option.{some}

abbrev pub All : {A : Type 0} → (A → Type 0) → List A → Type 0
All P [] = Unit
All P (x ∷ xs) = P x × All P xs

module _ {A : Type 0} (P : A → Type 0) where
  pub All-append : (xs ys : List A) → All P xs → All P ys → All P (xs ++ ys)
  All-append [] ys front back = back
  All-append (x ∷ xs) ys front back = (front.0, All-append xs ys front.1 back)

  pub All-take : (n : ℕ) (xs : List A) → All P xs → All P (take n xs)
  All-take zero xs all = tt
  All-take (suc n) [] all = tt
  All-take (suc n) (x ∷ xs) all = (all.0, All-take n xs all.1)

  pub All-drop : (n : ℕ) (xs : List A) → All P xs → All P (drop n xs)
  All-drop zero xs all = all
  All-drop (suc n) [] all = tt
  All-drop (suc n) (x ∷ xs) all = All-drop n xs all.1

  pub All-set : (xs : List A) (i : ℕ) {x : A} → All P xs → P x → All P (set xs i x)
  All-set [] i all new = tt
  All-set (y ∷ xs) zero all new = (new, all.1)
  All-set (y ∷ xs) (suc i) all new = (all.0, All-set xs i all.1 new)

  pub All-get_elem? : (xs : List A) (i : ℕ) {x : A} → All P xs → get_elem? xs i ≡ some x → P x
  All-get_elem? [] i all e = cc
  All-get_elem? (y ∷ xs) zero {x} all e =
      let e' : some y ≡ some x = e in let same : y ≡ x = cc e' in subst P same all.0
  All-get_elem? (y ∷ xs) (suc i) all e = All-get_elem? xs i all.1 e

pub All-map :
    {A : Type 0} {P Q : A → Type 0} → ((x : A) → P x → Q x) → (xs : List A) → All P xs → All Q xs
All-map into [] all = tt
All-map into (x ∷ xs) all = (into x all.0, All-map into xs all.1)
