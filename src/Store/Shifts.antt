-- ===== src/Store/Shifts.antt =====
-- The shift caches of store/src/prune_list.rs against the sum over the roots.
use mathlib.Core.List.{append_assoc, append-nil}
use epic.Base.{
  ℕ, suc, ◌+◌, ◌-◌, ◌^◌, ◌≤◌, ◌<◌, ◌≡◌, refl, sym, ap, ◌∙◌, arith, dec_lt, inl, inr, Bool-cases,
  Bool, true, false, ◌||◌, List, [], ◌∷◌, ◌++◌, length, length-append, some, get_elem?, ltb, leb,
  ◌==◌, if◌then◌else◌,
}
use epic.Base.Bits.{u64}
use epic.Store.PruneList.{Bitmaps, u32, is_pruned_root, cached_shift, push_shifts}

-- Strictly ascending words of 32 bits above a bound.
abbrev pub Ascending : ℕ → List ℕ → Type 0
Ascending low [] = Unit
Ascending low (x ∷ xs) = (low < x) × (x < 2 ^ 32) × Ascending x xs

unfoldable pub is_in : ℕ → List ℕ → Bool
is_in n [] = false
is_in n (x ∷ xs) = (x == n) || is_in n xs

unfoldable pub count_to : ℕ → List ℕ → ℕ
count_to n [] = 0
count_to n (x ∷ xs) = if leb x n then suc (count_to n xs) else count_to n xs

-- The shifts of the roots up to a position, together.
unfoldable pub shift_to : (ℕ → ℕ) → ℕ → List ℕ → ℕ
shift_to shift n [] = 0
shift_to shift n (x ∷ xs) = if leb x n then shift x + shift_to shift n xs else shift_to shift n xs

-- What the documentation of croaring says of a bitmap: its values come in ascending order, the rank of
-- a number is how many are at most it.
pub record IsBitmap (bitmaps : Bitmaps) (b : bitmaps.Bitmap) : Type 0 where
  pub positive : Ascending 0 (bitmaps.to_vec b)
  pub contains_lem : (n : ℕ) → bitmaps.contains b n ≡ is_in n (bitmaps.to_vec b)
  pub rank_lem : (n : ℕ) → bitmaps.rank b n ≡ count_to n (bitmaps.to_vec b)
  pub is_empty_lem : bitmaps.is_empty b ≡ (length (bitmaps.to_vec b) == 0)

Ascending-low : (low low' : ℕ) (xs : List ℕ) → low ≤ low' → Ascending low' xs → Ascending low xs
Ascending-low low low' [] h a = tt
Ascending-low low low' (x ∷ xs) h a = let lt = a.0 in (omega arith, a.1, a.2)

count_to_below : (n low : ℕ) (xs : List ℕ) → n ≤ low → Ascending low xs → count_to n xs ≡ 0
unfolding count_to
count_to_below n low [] h a = refl
count_to_below n low (x ∷ xs) h a =
    let lt = a.0 in let rest = count_to_below n x xs (omega arith) (a.2) in ground (arith, rest, lt)

shift_to_below :
    (shift : ℕ → ℕ) (n low : ℕ) (xs : List ℕ) → n ≤ low → Ascending low xs → shift_to shift n xs ≡ 0
unfolding shift_to
shift_to_below shift n low [] h a = refl
shift_to_below shift n low (x ∷ xs) h a =
    let lt = a.0 in
    let rest = shift_to_below shift n x xs (omega arith) (a.2) in ground (arith, rest, lt)

-- The sums that a cache holds, on top of what came before.
unfoldable pub sums : (ℕ → ℕ) → ℕ → List ℕ → List ℕ
sums shift before [] = []
sums shift before (x ∷ xs) = u64 (before + shift x) ∷ sums shift (u64 (before + shift x)) xs

length-sums : (shift : ℕ → ℕ) (before : ℕ) (xs : List ℕ) → length (sums shift before xs) ≡ length xs
unfolding sums
length-sums shift before [] = refl
length-sums shift before (x ∷ xs) = ap suc (length-sums shift (u64 (before + shift x)) xs)

count_to_nil : (n : ℕ) → count_to n [] ≡ 0
unfolding count_to
count_to_nil n = refl

pub shift_to_none :
    (shift : ℕ → ℕ) (n : ℕ) (xs : List ℕ) → count_to n xs ≡ 0 → shift_to shift n xs ≡ 0
unfolding count_to shift_to
shift_to_none shift n [] e = refl
shift_to_none shift n (x ∷ xs) e = elim (Bool-cases (leb x n)) [
  | inl t ↦ absurd (ground (arith, e, t))
  | inr f ↦ let e' : count_to n xs ≡ 0 = ground (arith, e, f) in rw f (shift_to_none shift n xs e')
]

count_to-yes : (n x : ℕ) (xs : List ℕ) → leb x n ≡ true → count_to n (x ∷ xs) ≡ suc (count_to n xs)
unfolding count_to
count_to-yes n x xs t = rw t refl

count_to-no : (n x : ℕ) (xs : List ℕ) → leb x n ≡ false → count_to n (x ∷ xs) ≡ count_to n xs
unfolding count_to
count_to-no n x xs f = rw f refl

shift_to-yes :
    (shift : ℕ → ℕ) (n x : ℕ) (xs : List ℕ)
    → leb x n ≡ true
    → shift_to shift n (x ∷ xs) ≡ shift x + shift_to shift n xs
unfolding shift_to
shift_to-yes shift n x xs t = rw t refl

-- The sum that stands where the rank tells, if any.
sums_at :
    (shift : ℕ → ℕ) (before low n : ℕ) (xs : List ℕ)
    → Ascending low xs
    → 0 < count_to n xs
    → get_elem? (sums shift before xs) (count_to n xs - 1)
      ≡ some (u64 (before + shift_to shift n xs))
unfolding sums
sums_at shift before low n [] a h = absurd (omega (arith, count_to_nil n))
sums_at shift before low n (x ∷ xs) a h = elim (Bool-cases (leb x n)) [
  | inr f ↦
      let none_left : count_to n xs ≡ 0 = count_to_below n x xs (ground (arith, f)) (a.2) in
      let same = count_to-no n x xs f in absurd (omega (arith, same, none_left, h))
  | inl t ↦
      let c = count_to-yes n x xs t in
      let sh = shift_to-yes shift n x xs t in
      elim (dec_lt 0 (count_to n xs)) [
        | no z ↦
            let zero_count : count_to n xs ≡ 0 = omega arith in
            let zero_shift = shift_to_none shift n xs zero_count in
            let sum : before + (shift x + 0) ≡ before + shift x = omega arith in
            rw (c, sh, zero_count, zero_shift, sum) refl
        | yes p ↦
            let next = sums_at shift (u64 (before + shift x)) x n xs a.2 p in
            let place : suc (count_to n xs) - 1 ≡ suc (count_to n xs - 1) = omega arith in
            let sum : u64 (before + (shift x + shift_to shift n xs))
                ≡ u64 (u64 (before + shift x) + shift_to shift n xs) =
              omega arith in
            rw (c, sh, place, sum) next
      ]
]

unfoldable shift_all : (ℕ → ℕ) → List ℕ → ℕ
shift_all shift [] = 0
shift_all shift (x ∷ xs) = shift x + shift_all shift xs

sums-append :
    (shift : ℕ → ℕ) (before : ℕ) (xs : List ℕ) (x : ℕ)
    → sums shift before (xs ++ x ∷ [])
      ≡ sums shift before xs ++ u64 (u64 (before + shift_all shift xs) + shift x) ∷ []
unfolding sums shift_all
sums-append shift before [] x =
    let e : u64 (before + shift x) ≡ u64 (u64 (before + 0) + shift x) = omega arith in rw e refl
sums-append shift before (y ∷ xs) x =
    let e : u64 (u64 (before + shift y) + shift_all shift xs)
        ≡ u64 (before + (shift y + shift_all shift xs)) =
      omega arith in
    rw (sums-append shift (u64 (before + shift y)) xs x, e) refl

-- Before a value, all the earlier ones count.
count_to-before :
    (low x : ℕ) (xs ys : List ℕ)
    → Ascending low (xs ++ x ∷ ys)
    → (low < x) × (count_to (x - 1) (xs ++ x ∷ ys) ≡ length xs) × (count_to (x - 1) xs ≡ length xs)
count_to-before low x [] ys a =
    let lt = a.0 in
    let rest = count_to_below (x - 1) x ys (omega arith) a.2 in
    let past = count_to-no (x - 1) x ys (ground (arith, lt)) in
    (lt, past ∙ rest, count_to_nil (x - 1))
count_to-before low x (y ∷ xs) ys a =
    let (lt, most, own) = count_to-before y x xs ys a.2 in
    let first = a.0 in
    let at : leb y (x - 1) ≡ true = ground (arith, lt) in
    (
      omega arith,
      count_to-yes (x - 1) y (xs ++ x ∷ ys) at ∙ ap suc most,
      count_to-yes (x - 1) y xs at ∙ ap suc own,
    )

pub count_to_le : (n : ℕ) (xs : List ℕ) → count_to n xs ≤ length xs
unfolding count_to
count_to_le n [] = omega arith
count_to_le n (x ∷ xs) = ground (arith, count_to_le n xs)

shift_to-before :
    (shift : ℕ → ℕ) (n : ℕ) (xs : List ℕ)
    → count_to n xs ≡ length xs
    → shift_to shift n xs ≡ shift_all shift xs
unfolding shift_all
shift_to-before shift n [] e = shift_to_none shift n [] e
shift_to-before shift n (x ∷ xs) e = elim (Bool-cases (leb x n)) [
  | inr f ↦
      let same = count_to-no n x xs f in
      let most = count_to_le n xs in absurd (omega (arith, same, most, e))
  | inl t ↦
      let one = count_to-yes n x xs t in
      let e' : count_to n xs ≡ length xs = omega (arith, one, e) in
      shift_to-yes shift n x xs t ∙ ap (λ z. shift x + z) (shift_to-before shift n xs e')
]

is_in-middle : (n : ℕ) (xs ys : List ℕ) → is_in n (xs ++ n ∷ ys) ≡ true
unfolding is_in
is_in-middle n [] ys = ground arith
is_in-middle n (x ∷ xs) ys = ground (arith, is_in-middle n xs ys)

Ascending-front : (low : ℕ) (xs ys : List ℕ) → Ascending low (xs ++ ys) → Ascending low xs
Ascending-front low [] ys a = tt
Ascending-front low (x ∷ xs) ys a = (a.0, a.1, Ascending-front x xs ys a.2)

Ascending-word : (low x : ℕ) (xs ys : List ℕ) → Ascending low (xs ++ x ∷ ys) → x < 2 ^ 32
Ascending-word low x [] ys a = a.1
Ascending-word low x (y ∷ xs) ys a = Ascending-word y x xs ys a.2

module _ (bitmaps : Bitmaps) where
  -- A cache of sums is read up to the rank.
  pub cached_shift-at :
      (b : bitmaps.Bitmap) (shift : ℕ → ℕ) (pos : ℕ) (xs : List ℕ)
      → Ascending 0 xs
      → bitmaps.is_empty b ≡ false
      → bitmaps.rank b (u32 pos) ≡ count_to (u32 pos) xs
      → cached_shift bitmaps b (sums shift 0 xs) pos ≡ some (u64 (shift_to shift (u32 pos) xs))
  unfolding cached_shift
  cached_shift-at b shift pos xs a full rank =
      let n = u32 pos in
      let len = length-sums shift 0 xs in
      let most = count_to_le n xs in
      elim (dec_lt 0 (count_to n xs)) [
        | no h ↦
            let zero_count : count_to n xs ≡ 0 = omega arith in
            let zero_idx : (bitmaps.rank b n == 0) ≡ true = ground (arith, rank, zero_count) in
            rw (cached_shift, full, zero_idx, shift_to_none shift n xs zero_count) refl
        | yes h ↦
            let at = sums_at shift 0 0 n xs a h in
            let some_idx : (bitmaps.rank b n == 0) ≡ false = ground (arith, rank, h) in
            let in_cache : ltb (length (sums shift 0 xs)) (bitmaps.rank b n) ≡ false =
              ground (arith, len, rank, most) in
            let sum : 0 + shift_to shift n xs ≡ shift_to shift n xs = omega arith in
            rw (cached_shift, full, some_idx, in_cache, rank, at, sum) refl
      ]

  pub push_shifts-sums :
      (b : bitmaps.Bitmap) (shift : ℕ → ℕ) (xs ys : List ℕ)
      → IsBitmap bitmaps b
      → bitmaps.to_vec b ≡ xs ++ ys
      → push_shifts bitmaps shift b ys (sums shift 0 xs) ≡ some (sums shift 0 (bitmaps.to_vec b))
  unfolding push_shifts is_pruned_root
  push_shifts-sums b shift xs [] law e = rw (e, append-nil) refl
  push_shifts-sums b shift xs (x ∷ ys) law e =
      let a : Ascending 0 (xs ++ x ∷ ys) = rw e at law.positive in
      let (pos, rank_all, rank_own) = count_to-before 0 x xs ys a in
      let word = Ascending-word 0 x xs ys a in
      let before = u64 (x + 2 ^ 64 - 1) in
      let place : u32 before ≡ x - 1 = omega (arith, word, pos) in
      let rank : bitmaps.rank b (u32 before) ≡ count_to (u32 before) xs =
        rw (place, law.rank_lem (x - 1), e, rank_all, rank_own) refl in
      let size : length (bitmaps.to_vec b) ≡ length xs + suc (length ys) =
        ap length e ∙ length-append xs (x ∷ ys) in
      let full : bitmaps.is_empty b ≡ false = law.is_empty_lem ∙ ground (arith, size) in
      let total : shift_to shift (u32 before) xs ≡ shift_all shift xs =
        rw place (shift_to-before shift (x - 1) xs rank_own) in
      let prev = cached_shift-at b shift before xs (Ascending-front 0 xs (x ∷ ys) a) full rank in
      let same : u32 x ≡ x = omega (arith, word) in
      let root : bitmaps.contains b (u32 x) ≡ true =
        rw (same, law.contains_lem x, e) (is_in-middle x xs ys) in
      let next : push_shifts bitmaps shift b ys (sums shift 0 (xs ++ x ∷ []))
          ≡ some (sums shift 0 (bitmaps.to_vec b)) =
        push_shifts-sums b shift (xs ++ x ∷ []) ys law (e ∙ sym (append_assoc xs (x ∷ []) ys)) in
      let sum : u64 (0 + shift_all shift xs) ≡ u64 (shift_all shift xs) = omega arith in
      rw (push_shifts, prev, root, total) (rw (sums-append shift 0 xs x, sum) at next)
