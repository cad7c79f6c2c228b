-- ===== src/Consensus/Emission/Overage.antt =====
-- `total_overage_at_height` of core/src/consensus.rs: what the miners and the foundation are paid up
-- to a height.
use native.Mathlib.Nat.{add-zero, mod-le}
use epic.Base.{
  dec_lt, Bool-cases, ℕ, zero, suc, ◌+◌, ◌-◌, ◌*◌, ◌%◌, ◌≤◌, ◌<◌, ◌≡◌, refl, ap, arith, Bool, ◌⊎◌,
  inl, inr,
}
use epic.Consensus.Emission.{
  ChainTypes, automated_testing, user_testing, floonet, mainnet, block_total_reward_at_height,
  reward_at_height, reward_foundation_at_height, foundation_height, is_foundation_height,
  sum_levies, cumulative_reward_foundation, or_panic, add_reward_foundation, sum_overage,
  total_overage_at_height, epic_base,
}
use epic.Consensus.Emission.Levy.{reward-levy}
use epic.Consensus.Emission.Supply.{issued, issued_cap}

-- Whether a height ends a period of the foundation, or only adds a block to it.
Period : ℕ → ℕ → Type 0
Period f n = ((suc n % f ≡ 0) × (suc (n % f) ≡ f) × (f ≤ suc n)) ⊎ (suc n % f ≡ suc (n % f))

Period-day : (n : ℕ) → Period 1440 n
unfolding Period
Period-day n = elim (dec_lt (n % 1440) 1439) [
  | yes lt ↦ inr (omega arith)
  | no ge ↦ inl (omega arith, omega arith, omega arith)
]

Period-chain : (chain : ChainTypes) (n : ℕ) → Period (foundation_height chain) n
unfolding Period foundation_height
Period-chain automated_testing n = elim (dec_lt (n % 5) 4) [
  | yes lt ↦ inr (omega arith)
  | no ge ↦ inl (omega arith, omega arith, omega arith)
]
Period-chain user_testing n = Period-day n
Period-chain floonet n = Period-day n
Period-chain mainnet n = Period-day n

sum_levies-snoc :
    (h c : ℕ) → sum_levies h (suc c) ≡ sum_levies h c + reward_foundation_at_height (h + c)
unfolding sum_levies
sum_levies-snoc h zero = rw (add-zero h) (omega arith)
sum_levies-snoc h (suc c) =
    let shift : h + 1 + c ≡ h + suc c = omega arith in
    omega (arith, sum_levies-snoc (h + 1) c, ap reward_foundation_at_height shift)

-- The levies since the last height at which the foundation could be paid.
unfoldable pending : ChainTypes → ℕ → ℕ
pending chain n = sum_levies (suc n - n % foundation_height chain) (n % foundation_height chain)

levies_window :
    (r n : ℕ)
    → r ≤ n
    → sum_levies (suc n - r) (suc r)
      ≡ sum_levies (suc n - r) r + reward_foundation_at_height (suc n)
levies_window r n inside =
    let end : suc n - r + r ≡ suc n = omega arith in
    omega (arith, sum_levies-snoc (suc n - r) r, ap reward_foundation_at_height end)

pending_next :
    (chain : ChainTypes) (n : ℕ)
    → suc n % foundation_height chain ≡ suc (n % foundation_height chain)
    → pending chain (suc n) ≡ pending chain n + reward_foundation_at_height (suc n)
unfolding pending
pending_next chain n step =
    let start : suc (suc n) - suc (n % foundation_height chain)
        ≡ suc n - n % foundation_height chain =
      omega arith in
    rw step (
      rw start (levies_window (n % foundation_height chain) n (mod-le n (foundation_height chain))))

-- A period has been paid in full, or it goes on.
pending_stop : (chain : ChainTypes) (n : ℕ) → n % foundation_height chain ≡ 0 → pending chain n ≡ 0
unfolding pending sum_levies
pending_stop chain n stop = rw stop refl

pending_none : (chain : ChainTypes) → pending chain 0 ≡ 0
unfolding foundation_height pending sum_levies
pending_none automated_testing = refl
pending_none user_testing = refl
pending_none floonet = refl
pending_none mainnet = refl

add_reward-window :
    (chain : ChainTypes) (n : ℕ)
    → add_reward_foundation chain n
      ≤ sum_levies (n - foundation_height chain + 1) (n + 1 - (n - foundation_height chain + 1))
unfolding add_reward_foundation cumulative_reward_foundation or_panic
add_reward-window chain n = elim (Bool-cases (is_foundation_height chain n)) [
  | inl at ↦ rw at (omega arith)
  | inr off ↦ rw off (omega arith)
]

add_reward-going :
    (chain : ChainTypes) (n : ℕ)
    → 0 < n % foundation_height chain
    → add_reward_foundation chain n ≡ 0
unfolding add_reward_foundation is_foundation_height
add_reward-going chain n going = ground arith

add_reward-le :
    (chain : ChainTypes) (n : ℕ)
    → add_reward_foundation chain (suc n) + pending chain (suc n)
      ≤ pending chain n + reward_foundation_at_height (suc n)
unfolding Period pending
add_reward-le chain n = elim (Period-chain chain n) [
  | inl (stop, full, past) ↦
      let r = n % foundation_height chain in
      let start : suc n - foundation_height chain + 1 ≡ suc n - r = omega arith in
      let count : suc n + 1 - (suc n - foundation_height chain + 1) ≡ suc r = omega arith in
      omega (
        arith,
        add_reward-window chain (suc n),
        ap (λ s. sum_levies s (suc n + 1 - (suc n - foundation_height chain + 1))) start,
        ap (sum_levies (suc n - r)) count,
        pending_stop chain (suc n) stop,
        levies_window r n (mod-le n (foundation_height chain)),
      )
  | inr step ↦
      omega (arith, add_reward-going chain (suc n) (omega arith), pending_next chain n step)
]

sum_overage-le : (chain : ChainTypes) (n : ℕ) → sum_overage chain n + pending chain n ≤ issued n
unfolding sum_overage issued
sum_overage-le chain zero = omega (arith, pending_none chain)
sum_overage-le chain (suc n) =
    omega (arith, sum_overage-le chain n, add_reward-le chain n, reward-levy (suc n))

reward_genesis : reward_at_height 0 ≡ 16 * epic_base
unfolding reward_at_height reward_foundation_at_height block_total_reward_at_height
reward_genesis = refl

-- On every chain, at every height up to the end of the 64 halvings (139,196,160), what the miners
-- and the foundation have been paid, with the genesis reward or without it, is at most 21 million
-- coins.
pub total_overage-cap :
    (chain : ChainTypes) (height : ℕ) (genesis_had_reward : Bool)
    → height ≤ 139_196_160
    → total_overage_at_height chain height genesis_had_reward ≤ 21_000_000 * epic_base
unfolding total_overage_at_height
total_overage-cap chain height genesis below =
    ground (arith, reward_genesis, sum_overage-le chain height, issued_cap height below)
