-- ===== src/Pmmr/Index/Peaks.antt =====
-- `peaks`: the roots of the full trees of a mountain range, from left to right.
use mathlib.Core.List.{append-nil, append_assoc}
use native.Mathlib.Nat.{add-sub_cancel_left}
use Prim.Native.Nat.add
use epic.Base.{
  ℕ, zero, suc, ◌+◌, ◌-◌, ◌*◌, ◌/◌, ◌^◌, ◌≤◌, ◌<◌, ◌≡◌, refl, sym, ap, ◌∙◌, arith, List, [], ◌∷◌,
  ◌++◌, dec_lt, ltb, ◌==◌, if◌then◌else◌, false, lt→ltb, Bool-cases, inl, inr,
}
use epic.Base.Bits.{
  two_pow_suc, mul-two_pow_suc, half_ones, two_pow_pos, le-mul_two_pow, two_pow_le,
  le_of_two_pow_le, count_ones, count_ones-top, count_ones-double, count_ones-le,
}
use epic.Pmmr.Index.{peaks_loop, finish_peaks, top_peak_size, peaks}
use epic.Pmmr.Index.Place.{node_pos, top_peak_size_lem}

peaks_loop-take :
    (f s p sum : ℕ) (found : List ℕ)
    → 0 < s
    → s ≤ p
    → peaks_loop (suc f) s p sum found
      ≡ peaks_loop f (s / 2) (p - s) (sum + s) (found ++ (sum + s) ∷ [])
unfolding peaks_loop
peaks_loop-take f s p sum found pos le = ground arith

peaks_loop-skip :
    (f s p sum : ℕ) (found : List ℕ)
    → 0 < s
    → p < s
    → peaks_loop (suc f) s p sum found ≡ peaks_loop f (s / 2) p sum found
unfolding peaks_loop
peaks_loop-skip f s p sum found pos lt = ground arith

peaks_loop-end : (f p sum : ℕ) (found : List ℕ) → peaks_loop f 0 p sum found ≡ (found, p)
unfolding peaks_loop
peaks_loop-end zero p sum found = refl
peaks_loop-end (suc f) p sum found = refl

-- The size of a range with `m` leaves.
unfoldable pub mmr_size : ℕ → ℕ
mmr_size m = 2 * m - count_ones m

mmr_size-zero : mmr_size 0 ≡ 0
unfolding mmr_size
mmr_size-zero = omega (arith, count_ones-le 0)

pub le-mmr_size : (m : ℕ) → (m ≤ mmr_size m) × (mmr_size m ≤ 2 * m)
unfolding mmr_size
le-mmr_size m = omega (arith, count_ones-le m)

-- The peaks over the leaves `q * 2 ^ k` to `q * 2 ^ k + r - 1`, by the binary digits of `r`.
unfoldable pub peak_nodes : ℕ → ℕ → ℕ → List ℕ
peak_nodes zero q r = []
peak_nodes (suc k) q r =
    if ltb r (2 ^ k)
    then peak_nodes k (2 * q + 0) r
    else node_pos k (2 * q + 0) ∷ peak_nodes k (2 * q + 1) (r - 2 ^ k)

-- The nodes before the tree over the leaves from `q * 2 ^ k` on.
before : ℕ → ℕ → ℕ
before k q = q * 2 ^ suc k - count_ones q

module _ (k q : ℕ) (room : k < 63) (fits : (q + 1) * 2 ^ suc k ≤ 2 ^ 63) where
  halves :
      (2 * ((q + 1) * 2 ^ k) ≡ (q + 1) * 2 ^ suc k)
      × (q * 2 ^ suc (suc k) ≡ 2 * (q * 2 ^ suc k))
      × (q ≤ q * 2 ^ suc k)
      × (q + 1 ≤ (q + 1) * 2 ^ suc k)
      × (2 ^ suc k ≡ 2 * 2 ^ k)
      × (0 < 2 ^ k)
  halves = omega (
    arith,
    mul-two_pow_suc (q + 1) k,
    mul-two_pow_suc q (suc k),
    le-mul_two_pow q (suc k),
    le-mul_two_pow (q + 1) (suc k),
    two_pow_suc k,
    two_pow_pos k,
  )

  ones_child : (d : ℕ) → d < 2 → count_ones (2 * q + d) ≡ d + count_ones q
  ones_child d digit = count_ones-double 63 q d (omega arith) (omega (arith, halves)) digit

  before-left : before (suc k) q ≡ before k (2 * q + 0)
  unfolding before
  before-left = omega (arith, halves, ones_child 0 (omega arith))

  before-right : before (suc k) q + (2 ^ suc k - 1) ≡ before k (2 * q + 1)
  unfolding before
  before-right = omega (arith, halves, ones_child 1 (omega arith), count_ones-le q)

  peak_place : before (suc k) q + (2 ^ suc k - 1) ≡ node_pos k (2 * q + 0)
  unfolding before node_pos
  peak_place = omega (arith, halves, ones_child 0 (omega arith), count_ones-le q)

  size-right :
      (r : ℕ) → 2 ^ k ≤ r → r < 2 ^ suc k → (mmr_size r ≡ 2 ^ suc k - 1 + mmr_size (r - 2 ^ k))
  unfolding mmr_size
  size-right r le lt = omega (
    arith,
    halves,
    ap count_ones split,
    count_ones-top k (r - 2 ^ k) (omega arith) (omega (arith, halves)),
    count_ones-le (r - 2 ^ k),
  )
    where
      split : r ≡ 2 ^ k + (r - 2 ^ k)
      split = omega arith

-- With the digits of `r` to go, the loop appends the peaks over `r` leaves and uses up their size.
peaks_loop-nodes :
    (f k q r : ℕ) (found : List ℕ)
    → k ≤ f
    → k ≤ 63
    → r < 2 ^ k
    → (q + 1) * 2 ^ k ≤ 2 ^ 63
    → peaks_loop f (2 ^ k - 1) (mmr_size r) (before k q) found ≡ (found ++ peak_nodes k q r, 0)
unfolding peak_nodes
peaks_loop-nodes f zero q r found le room small fits =
    let none_left : r ≡ 0 = omega arith in
    rw (peaks_loop-end, none_left, append-nil) (ap (λ (t : ℕ). (found, t)) mmr_size-zero)
peaks_loop-nodes zero (suc k) q r found le room small fits = absurd (omega arith)
peaks_loop-nodes (suc f) (suc k) q r found le room small fits = elim (dec_lt r (2 ^ k)) [
  | yes left ↦
      rw
        (
          peaks_loop-skip f (2 ^ suc k - 1) (mmr_size r) (before (suc k) q) found (half_ones k).1
              (unfold mmr_size in omega (arith, halves k q room fits)),
          (half_ones k).0,
          before-left k q room fits,
          lt→ltb r (2 ^ k) left,
        )
        (peaks_loop-nodes f k (2 * q + 0) r found (omega arith) (omega arith) left
          (omega (arith, halves k q room fits)))
  | no right ↦
      let over : ltb r (2 ^ k) ≡ false = ground arith in
      rw
        (
          peaks_loop-take f (2 ^ suc k - 1) (mmr_size r) (before (suc k) q) found (half_ones k).1
              (omega (arith, size-right k q room fits r)),
          (half_ones k).0,
          over,
          size-right k q room fits r (omega arith) small,
          add-sub_cancel_left,
          peak_place k q room fits,
        )
        (ap
            (λ (t : ℕ).
              peaks_loop f (2 ^ k - 1) (mmr_size (r - 2 ^ k)) t
                (found ++ node_pos k (2 * q + 0) ∷ []))
            (sym (peak_place k q room fits) ∙ before-right k q room fits)
          ∙ peaks_loop-nodes f k (2 * q + 1) (r - 2 ^ k) (found ++ node_pos k (2 * q + 0) ∷ [])
              (omega arith) (omega arith) (omega (arith, halves k q room fits))
              (omega (arith, halves k q room fits))
          ∙ ap (λ (l : List ℕ). (l, 0))
              (append_assoc found (node_pos k (2 * q + 0) ∷ [])
                (peak_nodes k (2 * q + 1) (r - 2 ^ k))))
]

-- More digits than `m` has add no peaks.
peak_nodes_enough : (e k m : ℕ) → m < 2 ^ k → peak_nodes (e + k) 0 m ≡ peak_nodes k 0 m
unfolding peak_nodes
peak_nodes_enough zero k m small = ap (λ (t : ℕ). peak_nodes t 0 m) (omega arith)
peak_nodes_enough (suc e) k m small =
    let wide : m < 2 ^ (e + k) = omega (arith, small, two_pow_le k (e + k) (omega arith)) in
    rw (add.suc, lt→ltb m (2 ^ (e + k)) wide) (peak_nodes_enough e k m small)

peak_nodes_same : (j k m : ℕ) → m < 2 ^ j → m < 2 ^ k → peak_nodes j 0 m ≡ peak_nodes k 0 m
peak_nodes_same j k m p q = elim (dec_lt j k) [
  | yes lt ↦ sym (peak_nodes_enough (k - j) j m p) ∙ ap (λ (t : ℕ). peak_nodes t 0 m) (omega arith)
  | no ge ↦ ap (λ (t : ℕ). peak_nodes t 0 m) (omega arith) ∙ peak_nodes_enough (j - k) k m q
]

peaks_at :
    (m k : ℕ)
    → mmr_size m < 2 ^ k
    → k ≤ 63
    → top_peak_size (mmr_size m) ≡ 2 ^ k - 1
    → finish_peaks (peaks_loop 64 (top_peak_size (mmr_size m)) (mmr_size m) 0 []) ≡ peak_nodes k 0 m
unfolding finish_peaks
peaks_at m k above room size = ap finish_peaks (
    ap (λ (t : ℕ). peaks_loop 64 t (mmr_size m) 0 []) size
    ∙ ap (λ (t : ℕ). peaks_loop 64 (2 ^ k - 1) (mmr_size m) t []) none_before
    ∙ peaks_loop-nodes 64 k 0 m [] (omega arith) room (omega (arith, le-mmr_size m))
        (omega (arith, two_pow_le k 63 room)))
  where
    none_before : 0 ≡ before k 0
    none_before = unfold before in omega (arith, count_ones-le 0)

-- At the size of a range with `m` leaves, `m` of at most `k` binary digits and `k` at most 61,
-- `peaks` gives the positions of the roots of the full trees that the digits of `m` stand for, from
-- left to right.
pub peaks-mmr_size : (m k : ℕ) → m < 2 ^ k → k ≤ 61 → peaks (mmr_size m) ≡ peak_nodes k 0 m
unfolding peaks peak_nodes
peaks-mmr_size m k small room = elim (Bool-cases (mmr_size m == 0)) [
  | inl empty ↦
      let no_leaf : m ≡ 0 = ground (arith, le-mmr_size m) in
      rw (empty, no_leaf) (peak_nodes_same 0 k 0 (omega arith) (two_pow_pos k))
  | inr some_leaf ↦
      let (j, top, above, below, size) =
        top_peak_size_lem (mmr_size m) (ground arith) (omega (arith, bound)) in
      rw some_leaf (
        peaks_at m j above (le_of_two_pow_le j 63 (omega (arith, below, bound))) size
        ∙ peak_nodes_same j k m (omega (arith, above, le-mmr_size m)) small)
]
  where
    bound : (mmr_size m ≤ 2 * m) × (m < 2 ^ 61)
    bound = ((le-mmr_size m).1, omega (arith, small, two_pow_le k 61 room))
