-- ===== src/Consensus/Tests.antt =====
-- Runs of the functions of core/src/consensus.rs and of core/src/core/block/feijoada.rs.
use epic.Base.{
  Bool, if◌then◌else◌, ◌%◌, ◌==◌, ℕ, zero, suc, ◌<◌, ◌/◌, max, List, [], ◌∷◌, drop, length,
  get_elem?, ◌+◌, ◌*◌, ◌≤◌, ◌≡◌, refl, arith, true, false, none, some, Option,
}
use epic.Base.Bits.{bits_below}
use epic.Consensus.Emission.{
  mul_trunc, rounds_up, foundation_height, automated_testing, mainnet, block_total_reward_at_height,
  reward_foundation_at_height, is_foundation_height, foundation_index, total_overage_at_height,
  epic_base,
}
use epic.Consensus.Retarget.{
  PoWType, random_x, cuckatoo, prog_pow, HeaderInfo, Difficulty, to_num, damp, clamp, same_pow,
  sum_timespans, next_info, from_diff_scaling, insert, last_of, ts_data_to_vector, fill_window,
  simulate, relink, last_delta, from_ts_diff, next_difficulty, next_difficulty_era1,
  next_cuckoo_difficulty, graph_weight, initial_graph_weight, min_edge_bits, base_edge_bits,
  secondary_pow_ratio, secondary_pow_scaling, ar_count, sum_scaling, sum_difficulty,
  difficulty_data_to_vector, wrapping_sub, min_difficulty_era1, next_difficulty_of_era1, retarget,
}
use epic.Consensus.Policy.{
  Policy, is_allowed_policy, default_allowed, sum_beans, default_policies, beans_of,
}
use epic.Consensus.Policy.Eras.{era, is_allowed_policy-era, bottles_after, sum_beans-bottles_after}
use epic.Consensus.Retarget.Window.{Rising, difficulty_data_to_vector-Rising}
use epic.Consensus.Retarget.Step.{next_cuckoo_difficulty_bounds}
use epic.Consensus.Retarget.Next.{next_difficulty-total}
use epic.Consensus.Emission.Overage.{total_overage-cap}

rewards_test : block_total_reward_at_height 480_961 ≡ 800_000_000
unfolding block_total_reward_at_height
rewards_test = refl

halving_test : block_total_reward_at_height 6_744_961 ≡ 7_812_500
unfolding block_total_reward_at_height
halving_test = refl

levy_test : reward_foundation_at_height 1 ≡ 142_080_000
unfolding reward_foundation_at_height mul_trunc rounds_up bits_below block_total_reward_at_height
levy_test = refl

levy_era_2_test : reward_foundation_at_height 172_801 ≡ 124_320_000
unfolding reward_foundation_at_height mul_trunc rounds_up bits_below block_total_reward_at_height
levy_era_2_test = refl

payment_test : is_foundation_height mainnet 1440 ≡ true
unfolding is_foundation_height foundation_height reward_foundation_at_height mul_trunc rounds_up
    bits_below block_total_reward_at_height
payment_test = refl

index_test : foundation_index mainnet 2880 ≡ some 1
unfolding foundation_index foundation_height
index_test = refl

total_overage-cap_example :
    total_overage_at_height automated_testing 12 true ≤ 21_000_000 * epic_base
total_overage-cap_example = total_overage-cap automated_testing 12 true (omega arith)

abbrev even_difficulty : ℕ → Difficulty
even_difficulty n pow = some n

abbrev header_at : ℕ → HeaderInfo
header_at time = record {
  timestamp = time;
  difficulty = even_difficulty 6400;
  secondary_scaling = 1;
  is_secondary = true;
  prev_timespan = 50;
}

-- A window of headers a minute apart.
abbrev minutes : ℕ → ℕ → List HeaderInfo
minutes time zero = []
minutes time (suc n) = header_at time ∷ minutes (time + 60) n

graph_weight_test : initial_graph_weight mainnet ≡ 256 * 31
unfolding initial_graph_weight graph_weight min_edge_bits base_edge_bits
graph_weight_test = refl

ratio_test : secondary_pow_ratio 0 ≡ 90
unfolding secondary_pow_ratio
ratio_test = refl

scaling_test : secondary_pow_scaling 0 (minutes 0 60) ≡ 13
unfolding secondary_pow_scaling secondary_pow_ratio ar_count sum_scaling clamp damp
scaling_test = refl

steady_test : next_cuckoo_difficulty cuckatoo (minutes 1000 61) ≡ some 6400
unfolding next_cuckoo_difficulty retarget sum_difficulty to_num clamp damp wrapping_sub
steady_test = refl

era1_test : next_difficulty_of_era1 random_x (minutes 1000 61) ≡ 6776
unfolding next_difficulty_of_era1 min_difficulty_era1 retarget sum_difficulty sum_timespans to_num
    clamp damp
era1_test = refl

abbrev new_difficulty : PoWType → Option HeaderInfo → ℕ
new_difficulty pow o = elim o [ none ↦ 0 | some h ↦ to_num h.difficulty pow ]

launch_test :
    new_difficulty random_x (next_difficulty_era1 mainnet 7 random_x (header_at 9000 ∷ [])) ≡ 9600
unfolding next_difficulty_era1 next_info from_diff_scaling insert same_pow last_of
    difficulty_data_to_vector ts_data_to_vector fill_window simulate relink last_delta from_ts_diff
    next_difficulty_of_era1 min_difficulty_era1 retarget sum_difficulty sum_timespans to_num clamp
    damp
launch_test = refl

next_cuckoo_difficulty_bounds_example :
    (n : ℕ) × (next_cuckoo_difficulty cuckatoo (minutes 1000 61) ≡ some n)
    × (sum_difficulty cuckatoo (drop 1 (minutes 1000 61)) / 60 / 2 ≤ n)
    × (n ≤ max 3 (2 * sum_difficulty cuckatoo (drop 1 (minutes 1000 61)) / 60))
unfolding sum_difficulty to_num
next_cuckoo_difficulty_bounds_example =
    next_cuckoo_difficulty_bounds cuckatoo (minutes 1000 61) refl (omega arith)

difficulty_data_to_vector-Rising_example :
    (v : List HeaderInfo) × (difficulty_data_to_vector mainnet (header_at 1000 ∷ []) 60 ≡ some v)
    × (length v ≡ 61)
    × (get_elem? v 60 ≡ some (header_at 1000))
    × Rising 0 v
difficulty_data_to_vector-Rising_example =
    difficulty_data_to_vector-Rising mainnet (header_at 1000) [] 60

next_difficulty-total_example :
    (info : HeaderInfo) × (n : ℕ) × (next_difficulty mainnet 7 prog_pow (header_at 1000 ∷ [])
      ≡ some info)
    × (0 < n)
    × (info.difficulty prog_pow ≡ some n)
    × ((other : PoWType) → same_pow prog_pow other ≡ false → info.difficulty other ≡ some 6400)
next_difficulty-total_example = next_difficulty-total mainnet 7 prog_pow (header_at 1000) []

abbrev all_hundred : List Policy → Bool
all_hundred [] = true
all_hundred (p ∷ ps) = if sum_beans p == 100 then all_hundred ps else false

-- What `check_policy` asserts of each.
shares_test : all_hundred default_policies ≡ true
unfolding sum_beans beans_of
shares_test = refl

is_allowed_policy-era_example :
    is_allowed_policy default_allowed 500_000 1 ≡ some (1 == era 500_000)
is_allowed_policy-era_example = is_allowed_policy-era 500_000 1 (omega arith)

sum_beans-bottles_after_example :
    sum_beans (bottles_after (random_x ∷ cuckatoo ∷ prog_pow ∷ []))
    ≡ length (cuckatoo ∷ prog_pow ∷ []) % 100 + 1
sum_beans-bottles_after_example = sum_beans-bottles_after random_x (cuckatoo ∷ prog_pow ∷ [])
