-- ===== src/Consensus/Retarget/Step.antt =====
-- How far one retarget moves the difficulty.
use native.Mathlib.Nat.{le-div_iff_mul-le, mul-le-mul_left, mul-div-le}
use epic.Base.{
  ℕ, zero, suc, ◌*◌, ◌/◌, ◌^◌, ◌≤◌, ◌<◌, ◌≡◌, refl, arith, max, List, [], ◌∷◌, some, length,
  get_elem?, drop,
}
use epic.Base.Bits.{u64}
use epic.Consensus.Retarget.{
  PoWType, HeaderInfo, wrapping_sub, damp, clamp, retarget, sum_difficulty, next_cuckoo_difficulty,
}

pub get_elem?-some :
    (xs : List HeaderInfo) (i : ℕ) → i < length xs → (x : HeaderInfo) × (get_elem? xs i ≡ some x)
get_elem?-some [] i inside = absurd (omega arith)
get_elem?-some (x ∷ xs) zero inside = (x, refl)
get_elem?-some (x ∷ xs) (suc i) inside = get_elem?-some xs i (omega arith)

clamp_bounds : (actual : ℕ) → (1800 ≤ clamp actual 3600 2) × (clamp actual 3600 2 ≤ 7200)
unfolding clamp
clamp_bounds actual = omega arith

quotient_bounds : (n d : ℕ) → 1800 ≤ d → d ≤ 7200 → (n / 7200 ≤ n / d) × (n / d ≤ n / 1800)
quotient_bounds n d low high = (
  (le-div_iff_mul-le (omega arith)).1
      (omega (arith, mul-le-mul_left (n / 7200) high, mul-div-le n 7200)),
  (le-div_iff_mul-le {k = 1800} (omega arith)).1
      (omega (arith, mul-le-mul_left (n / d) low, mul-div-le n d)),
)

retarget_bounds :
    (least sum delta : ℕ)
    → sum * 60 < 2 ^ 64
    → (sum / 120 ≤ retarget least sum delta) × (retarget least sum delta ≤ max least (sum / 30))
unfolding retarget
retarget_bounds least sum delta small =
    let whole : u64 (u64 sum * 60) ≡ sum * 60 = omega arith in
    let adjusted = clamp_bounds (damp delta 3600 3) in
    let between =
      quotient_bounds (sum * 60) (clamp (damp delta 3600 3) 3600 2) adjusted.0 adjusted.1 in
    rw whole (omega arith)

-- In a window of 61 headers, with difficulties whose sum times 60 is below 2 ^ 64, the next Cuckoo
-- difficulty is at least half the mean of the last 60, rounded down, and at most the double of the
-- mean, rounded down, or 3.
pub next_cuckoo_difficulty_bounds :
    (pow : PoWType) (v : List HeaderInfo)
    → length v ≡ 61
    → sum_difficulty pow (drop 1 v) * 60 < 2 ^ 64
    → (n : ℕ) × (next_cuckoo_difficulty pow v ≡ some n)
      × (sum_difficulty pow (drop 1 v) / 60 / 2 ≤ n)
      × (n ≤ max 3 (2 * sum_difficulty pow (drop 1 v) / 60))
unfolding next_cuckoo_difficulty
next_cuckoo_difficulty_bounds pow [] size small = absurd (omega arith)
next_cuckoo_difficulty_bounds pow (oldest ∷ xs) size small =
    let (newest, found) = get_elem?-some xs 59 (omega arith) in
    let sum = sum_difficulty pow xs in
    let delta = wrapping_sub newest.timestamp oldest.timestamp in
    let bounds = retarget_bounds 3 sum delta small in
    (retarget 3 sum delta, rw found refl, omega (arith, bounds.0), omega (arith, bounds.1))
