-- ===== src/Store/Concat.antt =====
-- Elements of one size laid one after the other, as the files of store/src/types.rs have them.
use native.Mathlib.Nat.{mul-le-mul_right}
use mathlib.Core.List.{append_assoc, append-nil}
use epic.Base.{
  ℕ, zero, suc, ◌+◌, ◌*◌, ◌^◌, ◌≤◌, ◌<◌, ◌≡◌, refl, sym, ap, false, arith, List, [], ◌∷◌, ◌++◌,
  some, length, take, drop, get_elem?, length-append, ltb,
}
use epic.Base.Bits.{u64}
use epic.Base.Predicates.{All, All-get_elem?}
use epic.Store.File.{slice}

unfoldable pub concat : List (List ℕ) → List ℕ
concat [] = []
concat (x ∷ xs) = x ++ concat xs

pub concat-append : (xs ys : List (List ℕ)) → concat (xs ++ ys) ≡ concat xs ++ concat ys
unfolding concat
concat-append [] ys = refl
concat-append (x ∷ xs) ys = rw (concat-append xs ys, append_assoc) refl

take_append :
    {A : Type 0} (xs ys : List A) (n : ℕ) → take (length xs + n) (xs ++ ys) ≡ xs ++ take n ys
take_append [] ys n = let e : 0 + n ≡ n = omega arith in rw e refl
take_append (x ∷ xs) ys n =
    let e : suc (length xs) + n ≡ suc (length xs + n) = omega arith in
    rw (e, take_append xs ys n) refl

drop_append : {A : Type 0} (xs ys : List A) (n : ℕ) → drop (length xs + n) (xs ++ ys) ≡ drop n ys
drop_append [] ys n = let e : 0 + n ≡ n = omega arith in rw e refl
drop_append (x ∷ xs) ys n =
    let e : suc (length xs) + n ≡ suc (length xs + n) = omega arith in
    rw (e, drop_append xs ys n) refl

pub take_nil : {A : Type 0} (n : ℕ) → take {A = A} n [] ≡ []
take_nil zero = refl
take_nil (suc n) = refl

pub drop_nil : {A : Type 0} (n : ℕ) → drop {A = A} n [] ≡ []
drop_nil zero = refl
drop_nil (suc n) = refl

take_front : {A : Type 0} (xs ys : List A) (n : ℕ) → n ≡ length xs → take n (xs ++ ys) ≡ xs
take_front xs ys n e =
    let e' : n ≡ length xs + 0 = omega arith in rw (e', take_append xs ys 0, append-nil) refl

pub take_all : {A : Type 0} (xs : List A) → take (length xs) xs ≡ xs
take_all [] = refl
take_all (x ∷ xs) = rw (take_all xs) refl

module _ (size : ℕ) where
  -- Elements of the size.
  abbrev pub Sized : List (List ℕ) → Type 0
  Sized xs = All (λ x. length x ≡ size) xs

  pub length-concat : (xs : List (List ℕ)) → Sized xs → length (concat xs) ≡ length xs * size
  unfolding concat
  length-concat [] h = omega arith
  length-concat (x ∷ xs) h =
      let here = h.0 in omega (arith, length-append x (concat xs), length-concat xs h.1)

  pub take-concat :
      (xs : List (List ℕ)) (n : ℕ) → Sized xs → take (n * size) (concat xs) ≡ concat (take n xs)
  unfolding concat
  take-concat xs zero h = let e : 0 * size ≡ 0 = omega arith in rw e refl
  take-concat [] (suc n) h = take_nil (suc n * size)
  take-concat (x ∷ xs) (suc n) h =
      let here = h.0 in
      let e : suc n * size ≡ length x + n * size = omega arith in
      rw (e, take_append x (concat xs) (n * size), take-concat xs n h.1) refl

  drop-concat :
      (xs : List (List ℕ)) (n : ℕ) → Sized xs → drop (n * size) (concat xs) ≡ concat (drop n xs)
  unfolding concat
  drop-concat xs zero h = let e : 0 * size ≡ 0 = omega arith in rw e refl
  drop-concat [] (suc n) h = drop_nil (suc n * size)
  drop-concat (x ∷ xs) (suc n) h =
      let here = h.0 in
      let e : suc n * size ≡ length x + n * size = omega arith in
      rw (e, drop_append x (concat xs) (n * size), drop-concat xs n h.1) refl

  get_elem?-drop :
      (xs : List (List ℕ)) (i : ℕ) {x : List ℕ}
      → get_elem? xs i ≡ some x
      → (ys : List (List ℕ)) × (drop i xs ≡ x ∷ ys)
  get_elem?-drop [] i e = cc
  get_elem?-drop (y ∷ xs) zero e = (xs, ap (λ z. z ∷ xs) (cc))
  get_elem?-drop (y ∷ xs) (suc i) e = get_elem?-drop xs i e

  pub get_elem?-lt :
      (xs : List (List ℕ)) (i : ℕ) {x : List ℕ} → get_elem? xs i ≡ some x → i < length xs
  get_elem?-lt [] i e = cc
  get_elem?-lt (y ∷ xs) zero e = omega arith
  get_elem?-lt (y ∷ xs) (suc i) e = omega (arith, get_elem?-lt xs i e)

  -- An element is read at its offset.
  pub slice-concat :
      (xs : List (List ℕ)) (i : ℕ) {x : List ℕ}
      → Sized xs
      → length xs * size < 2 ^ 64
      → get_elem? xs i ≡ some x
      → slice (i * size) size (concat xs) ≡ x
  unfolding slice concat
  slice-concat xs i {x} h few e =
      let lt = get_elem?-lt xs i e in
      let (ys, rest) = get_elem?-drop xs i e in
      let len = length-concat xs h in
      let le : suc i * size ≤ length xs * size = mul-le-mul_right size lt in
      let room : ltb (length (concat xs)) (u64 (i * size + size)) ≡ false =
        ground (arith, len, le) in
      let sized : length x ≡ size = All-get_elem? (λ y. length y ≡ size) xs i h e in
      rw (slice, room, drop-concat xs i h, rest) (take_front x (concat ys) size (sym sized))
