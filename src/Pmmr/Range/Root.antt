-- ===== src/Pmmr/Range/Root.antt =====
-- `PMMR::root` of a range over the first leaves.
use mathlib.Core.List.{filter_map}
use epic.Base.{
  ℕ, zero, suc, ◌+◌, ◌-◌, ◌*◌, ◌^◌, ◌≤◌, ◌<◌, ◌≡◌, refl, ap, ◌∙◌, arith, false, List, [], ◌∷◌, some,
  ltb, Option-cases, if◌then◌else◌, Bool-cases, inl, inr, ◌==◌,
}
use epic.Base.Bits.{mul-two_pow_suc}
use epic.Pmmr.Index
use epic.Pmmr.Index.Peaks.{mmr_size, le-mmr_size, peak_nodes, peaks-mmr_size}
use epic.Pmmr.Backend.{Hashing, Backend, Appends}
use epic.Pmmr.Range
use epic.Pmmr.Range.{Pmmr, bag, hashes_at, is_empty, unpruned_size, root}
use epic.Pmmr.Range.Push.{IsRange, node_hash}

bag-some :
    (H : Hashing) (size : ℕ) (h : H.Hash) (hs : List H.Hash)
    → (res : H.Hash) × (bag H size (h ∷ hs) ≡ some res)
unfolding bag
bag-some H size h hs = elim (Option-cases (bag H size hs)) [
  | inl alone ↦ rw alone (h, refl)
  | inr (rhash, e) ↦ rw e (H.hash_pair h rhash size, refl)
]

module _ (H : Hashing) (leaf : ℕ → H.Element) where
  -- The hashes of the peaks over the leaves `q * 2 ^ k` to `q * 2 ^ k + r - 1`.
  unfoldable pub peak_hashes : ℕ → ℕ → ℕ → List H.Hash
  peak_hashes zero q r = []
  peak_hashes (suc k) q r =
      if ltb r (2 ^ k)
      then peak_hashes k (2 * q + 0) r
      else node_hash H leaf k (2 * q + 0) ∷ peak_hashes k (2 * q + 1) (r - 2 ^ k)

  -- A range with a leaf has a peak.
  peak_hashes-some :
      (k q r : ℕ)
      → 0 < r
      → r < 2 ^ k
      → (h : H.Hash) × (hs : List H.Hash) × (peak_hashes k q r ≡ h ∷ hs)
  unfolding peak_hashes
  peak_hashes-some zero q r some_leaf small = absurd (omega arith)
  peak_hashes-some (suc k) q r some_leaf small = elim (Bool-cases (ltb r (2 ^ k))) [
    | inl less ↦ rw less (peak_hashes-some k (2 * q + 0) r some_leaf (ground arith))
    | inr more ↦ rw more (_, _, refl)
  ]

module _ {H : Hashing} {B : Backend H} (A : Appends B) (leaf : ℕ → H.Element) (m : ℕ) (r : Pmmr B)
    (range : IsRange A leaf m r) where
  hashes_at-peak_nodes :
      (k q s : ℕ) → q * 2 ^ k + s ≤ m → hashes_at r (peak_nodes k q s) ≡ peak_hashes H leaf k q s
  unfolding hashes_at peak_nodes peak_hashes filter_map
  hashes_at-peak_nodes zero q s room = refl
  hashes_at-peak_nodes (suc k) q s room = elim (Bool-cases (ltb s (2 ^ k))) [
    | inl less ↦ rw less (hashes_at-peak_nodes k (2 * q + 0) s (omega (arith, mul-two_pow_suc q k)))
    | inr more ↦
        let enough : 2 ^ k ≤ s = ground arith in
        let under : (2 * q + 0 + 1) * 2 ^ k ≤ m = omega (arith, mul-two_pow_suc q k) in
        rw (more, range.nodes k (2 * q + 0) under)
          (ap (λ (hs : List H.Hash). node_hash H leaf k (2 * q + 0) ∷ hs)
            (hashes_at-peak_nodes k (2 * q + 1) (s - 2 ^ k) (omega (arith, mul-two_pow_suc q k))))
  ]

  peaks_lem : m < 2 ^ 60 → Range.peaks r ≡ peak_hashes H leaf 60 0 m
  unfolding Range.peaks
  peaks_lem small =
      ap (λ (n : ℕ). hashes_at r (Index.peaks n)) range.sized
      ∙ ap (hashes_at r) (peaks-mmr_size m 60 small (omega arith))
      ∙ hashes_at-peak_nodes 60 0 m (omega arith)

  root-bag : 0 < m → m < 2 ^ 60 → root r ≡ bag H (mmr_size m) (peak_hashes H leaf 60 0 m)
  unfolding root is_empty unpruned_size
  root-bag some_leaf small =
      let full : (r.last_pos == 0) ≡ false = ground (arith, range.sized, le-mmr_size m) in
      rw (full, peaks_lem small, range.sized) refl

  -- For a range over the first `m` leaves, from 1 to 2 ^ 60 - 1 of them, `root` succeeds, with the hash
  -- that bags the hashes of the full trees' roots from right to left: it depends on the leaves alone,
  -- not on how the backend came by them.
  pub root_lem :
      0 < m
      → m < 2 ^ 60
      → (h : H.Hash) × (root r ≡ some h) × (bag H (mmr_size m) (peak_hashes H leaf 60 0 m) ≡ some h)
  root_lem some_leaf small =
      let (p, rest, e) = peak_hashes-some H leaf 60 0 m some_leaf small in
      let (h, bagged) = bag-some H (mmr_size m) p rest in
      let hash = ap (bag H (mmr_size m)) e ∙ bagged in (h, root-bag some_leaf small ∙ hash, hash)
