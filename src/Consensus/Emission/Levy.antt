-- ===== src/Consensus/Emission/Levy.antt =====
-- The foundation levy never exceeds the block's total reward, so the miner's part does not
-- underflow.
use native.Mathlib.Nat.{div-add-mod', div-le_of_le-mul, mul-le-mul_left}
use epic.Base.{
  ℕ, zero, suc, ◌+◌, ◌-◌, ◌*◌, ◌/◌, ◌%◌, ◌^◌, ◌≤◌, ◌≡◌, arith, true, inl, inr, Bool-cases,
  get_elem?,
}
use epic.Base.Bits.{bits_below}
use epic.Consensus.Emission.{
  Dyadic, rounds_up, round_to, mul_trunc, foundation_levy, levy_of, reward_foundation_at_height,
  block_total_reward_at_height, reward_at_height,
}

rounds_up-le : (unit q r : ℕ) → rounds_up unit q r ≡ true → unit ≤ 2 * r
unfolding rounds_up
rounds_up-le unit q r up = ground arith

-- Rounding at most doubles: it goes up only past half of the unit.
round_to-le : (unit p : ℕ) → round_to unit p ≤ 2 * p
unfolding round_to
round_to-le unit p = elim (Bool-cases (rounds_up unit (p / unit) (p % unit))) [
  | inl up ↦ rw up (omega (arith, div-add-mod' p unit, rounds_up-le unit (p / unit) (p % unit) up))
  | inr down ↦ rw down (omega (arith, div-add-mod' p unit))
]

mul_trunc-le : (n : ℕ) (x : Dyadic) → 2 * x.mantissa ≤ 2 ^ x.scale → mul_trunc n x ≤ n
unfolding mul_trunc
mul_trunc-le n x half = div-le_of_le-mul (2 ^ x.scale) bound
  where
    unit : ℕ
    unit = 2 ^ (bits_below 256 (n * x.mantissa) - 53)

    bound : round_to unit (n * x.mantissa) ≤ 2 ^ x.scale * n
    bound = omega (
      arith,
      round_to-le unit (n * x.mantissa),
      mul-le-mul_left {m = 2 * x.mantissa} {n = 2 ^ x.scale} n half,
    )

levy_of-le : (total i : ℕ) → levy_of total (get_elem? foundation_levy i) ≤ total
unfolding levy_of
levy_of-le total zero = mul_trunc-le total _ (omega arith)
levy_of-le total (suc zero) = mul_trunc-le total _ (omega arith)
levy_of-le total (suc (suc zero)) = mul_trunc-le total _ (omega arith)
levy_of-le total (suc (suc (suc zero))) = mul_trunc-le total _ (omega arith)
levy_of-le total (suc (suc (suc (suc zero)))) = mul_trunc-le total _ (omega arith)
levy_of-le total (suc (suc (suc (suc (suc zero))))) = mul_trunc-le total _ (omega arith)
levy_of-le total (suc (suc (suc (suc (suc (suc zero)))))) = mul_trunc-le total _ (omega arith)
levy_of-le total (suc (suc (suc (suc (suc (suc (suc zero))))))) = mul_trunc-le total _ (omega arith)
levy_of-le total (suc (suc (suc (suc (suc (suc (suc (suc zero)))))))) =
    mul_trunc-le total _ (omega arith)
levy_of-le total (suc (suc (suc (suc (suc (suc (suc (suc (suc i))))))))) = omega arith

pub levy-le-total :
    (height : ℕ) → reward_foundation_at_height height ≤ block_total_reward_at_height height
unfolding reward_foundation_at_height
levy-le-total height = ground (
  arith,
  levy_of-le (block_total_reward_at_height height) 0,
  levy_of-le (block_total_reward_at_height height) ((height - 172800 - 1) / 525600 + 1),
)

pub reward-levy :
    (height : ℕ)
    → reward_at_height height + reward_foundation_at_height height
      ≡ block_total_reward_at_height height
unfolding reward_at_height
reward-levy height = omega (arith, levy-le-total height)
