-- ===== src/Consensus/Emission/Supply.antt =====
-- The block rewards of core/src/consensus.rs, summed over the heights of the eras.
use native.Mathlib.Nat.{div-div-eq-div-mul, mul_comm}
use epic.Base.{ℕ, zero, suc, ◌+◌, ◌-◌, ◌*◌, ◌/◌, ◌%◌, ◌^◌, ◌≤◌, ◌<◌, ◌≡◌, refl, ap, sym, ◌∙◌, arith}
use epic.Base.Bits.{two_pow_suc}
use epic.Consensus.Emission.{
  block_total_reward_at_height, block_era_5, block_era_6_onwards, base_reward_era_6_onwards,
  epic_base,
}

-- The total rewards of the blocks 1 to `n`.
unfoldable pub issued : ℕ → ℕ
issued zero = 0
issued (suc n) = issued n + block_total_reward_at_height (suc n)

-- The rewards of an era: `k` blocks after `s` with the same reward.
issued_flat :
    (c s k : ℕ)
    → ((j : ℕ) → j < k → block_total_reward_at_height (suc (s + j)) ≡ c)
    → issued (s + k) ≡ issued s + k * c
unfolding issued
issued_flat c s zero flat = let whole : s + zero ≡ s = omega arith in rw whole (omega arith)
issued_flat c s (suc k) flat =
    let next : s + suc k ≡ suc (s + k) = omega arith in
    rw next (omega (arith, issued_flat c s k (λ j lt. flat j (omega arith)), flat k (omega arith)))

issued_mono : (n d : ℕ) → issued n ≤ issued (n + d)
unfolding issued
issued_mono n zero = let whole : n + zero ≡ n = omega arith in rw whole (omega arith)
issued_mono n (suc d) =
    let next : n + suc d ≡ suc (n + d) = omega arith in rw next (omega (arith, issued_mono n d))

-- The five eras of a fixed reward.
flat_1 : (j : ℕ) → j < 480960 → block_total_reward_at_height (suc (0 + j)) ≡ 1_600_000_000
unfolding block_total_reward_at_height
flat_1 j inside = ground arith

flat_2 : (j : ℕ) → j < 676800 → block_total_reward_at_height (suc (480960 + j)) ≡ 800_000_000
unfolding block_total_reward_at_height
flat_2 j inside = ground arith

flat_3 : (j : ℕ) → j < 865440 → block_total_reward_at_height (suc (1157760 + j)) ≡ 400_000_000
unfolding block_total_reward_at_height
flat_3 j inside = ground arith

flat_4 : (j : ℕ) → j < 1152000 → block_total_reward_at_height (suc (2023200 + j)) ≡ 200_000_000
unfolding block_total_reward_at_height
flat_4 j inside = ground arith

flat_5 : (j : ℕ) → j < 1467360 → block_total_reward_at_height (suc (3175200 + j)) ≡ 100_000_000
unfolding block_total_reward_at_height
flat_5 j inside = ground arith

issued_none : issued 0 ≡ 0
unfolding issued
issued_none = refl

issued_era_5 : issued block_era_5 ≡ 20342880 * epic_base
issued_era_5 = omega (
  arith,
  issued_none,
  issued_flat _ 0 480960 flat_1,
  issued_flat _ 480960 676800 flat_2,
  issued_flat _ 1157760 865440 flat_3,
  issued_flat _ 2023200 1152000 flat_4,
  issued_flat _ 3175200 1467360 flat_5,
)

-- The reward of the era `k` of the halvings.
unfoldable era_reward : ℕ → ℕ
era_reward k = base_reward_era_6_onwards / 2 ^ k

era_reward_zero : era_reward 0 ≡ base_reward_era_6_onwards
unfolding era_reward
era_reward_zero = refl

era_reward-suc : (k : ℕ) → 2 * era_reward (suc k) ≤ era_reward k
unfolding era_reward
era_reward-suc k = omega (
  arith,
  two_pow_suc k,
  div-div-eq-div-mul base_reward_era_6_onwards (2 ^ k) 2,
  ap (◌/◌ base_reward_era_6_onwards) (mul_comm (2 ^ k) 2 ∙ sym (two_pow_suc k)),
)

halved :
    (k j : ℕ)
    → k < 64
    → j < block_era_6_onwards
    → block_total_reward_at_height (suc (block_era_5 + k * block_era_6_onwards + j)) ≡ era_reward k
unfolding block_total_reward_at_height era_reward
halved k j small inside =
    let exp : (suc (block_era_5 + k * block_era_6_onwards + j) - block_era_5 - 1)
          / block_era_6_onwards
          % 64
        ≡ k =
      omega arith in
    ground (arith, exp)

-- After `k` halvings, twice the next era's rewards are kept back.
issued_halvings :
    (k : ℕ)
    → k ≤ 64
    → issued (block_era_5 + k * block_era_6_onwards) + 2 * (block_era_6_onwards * era_reward k)
      ≤ 20342880 * epic_base + 2 * (block_era_6_onwards * base_reward_era_6_onwards)
issued_halvings zero le = omega (arith, issued_era_5, era_reward_zero)
issued_halvings (suc k) le =
    let next : block_era_5 + suc k * block_era_6_onwards
        ≡ block_era_5 + k * block_era_6_onwards + block_era_6_onwards =
      omega arith in
    rw next (
      omega (
        arith,
        era_reward-suc k,
        issued_halvings k (omega arith),
        issued_flat (era_reward k) (block_era_5 + k * block_era_6_onwards) block_era_6_onwards
            (λ j inside. halved k j (omega arith) inside),
      ))

-- Below the height of 64 halvings.
pub issued_cap : (n : ℕ) → n ≤ 139196160 → issued n ≤ 20_999_880 * epic_base
issued_cap n below =
    let end : n + (139196160 - n) ≡ block_era_5 + 64 * block_era_6_onwards = omega arith in
    omega (arith, issued_mono n (139196160 - n), ap issued end, issued_halvings 64 (omega arith))
