-- ===== src/Consensus/Emission.antt =====
-- core/src/consensus.rs: the block reward and the foundation levy by height.
pub mod Levy
pub mod Supply
pub mod Overage
use epic.Base.{
  ℕ, zero, suc, ◌+◌, ◌-◌, ◌*◌, ◌/◌, ◌%◌, ◌^◌, Bool, true, false, not, ◌&&◌, ◌||◌, List, [], ◌∷◌,
  Option, none, some, leb, ltb, ◌==◌, if◌then◌else◌, get_elem?, length,
}
use epic.Base.Bits.{bits_below}

-- `ChainTypes` of core/src/global.rs.
pub data ChainTypes : Type 0 where
  automated_testing user_testing floonet mainnet : ChainTypes

abbrev pub epic_base : ℕ
epic_base = 100_000_000

abbrev pub block_time_sec : ℕ
block_time_sec = 60

abbrev pub hour_height : ℕ
hour_height = 3600 / block_time_sec

abbrev pub day_height : ℕ
day_height = 24 * hour_height

abbrev pub week_height : ℕ
week_height = 7 * day_height

abbrev pub year_height : ℕ
year_height = 52 * week_height

abbrev pub block_era_1 : ℕ
block_era_1 = day_height * 334

abbrev pub block_era_2 : ℕ
block_era_2 = block_era_1 + day_height * 470

abbrev pub block_era_3 : ℕ
block_era_3 = block_era_2 + day_height * 601

abbrev pub block_era_4 : ℕ
block_era_4 = block_era_3 + day_height * 800

abbrev pub block_era_5 : ℕ
block_era_5 = block_era_4 + day_height * 1019

abbrev pub block_era_6_onwards : ℕ
block_era_6_onwards = day_height * 1460

-- `(0.15625 * EPIC_BASE as f64) as u64`: 0.15625 is 5 / 32, so the product is exact.
abbrev pub base_reward_era_6_onwards : ℕ
base_reward_era_6_onwards = 5 * epic_base / 32

-- In a release build `1 << exp` takes the shift modulo 64.
unfoldable pub block_total_reward_at_height : ℕ → ℕ
block_total_reward_at_height height =
    if leb height block_era_1
    then 16 * epic_base
    else if leb height block_era_2
    then 8 * epic_base
    else if leb height block_era_3
    then 4 * epic_base
    else if leb height block_era_4
    then 2 * epic_base
    else if leb height block_era_5
    then 1 * epic_base
    else (let height_with_offset = height - block_era_5 - 1 in
        let exp = height_with_offset / block_era_6_onwards in
        base_reward_era_6_onwards / 2 ^ (exp % 64))

unfoldable pub foundation_height : ChainTypes → ℕ
foundation_height automated_testing = 5
foundation_height user_testing = day_height
foundation_height floonet = day_height
foundation_height mainnet = day_height

unfoldable pub difficultyfix_height : ChainTypes → ℕ
difficultyfix_height automated_testing = 50
difficultyfix_height user_testing = 50
difficultyfix_height floonet = 200
difficultyfix_height mainnet = 501160

-- A positive `f64` that is written in the source: `mantissa / 2 ^ scale`.
pub record Dyadic : Type 0 where
  pub mantissa : ℕ
  pub scale : ℕ

-- Whether `q * unit + r` is nearer to `(q + 1) * unit`; a tie goes to the even one.
unfoldable pub rounds_up : ℕ → ℕ → ℕ → Bool
rounds_up unit q r = ltb unit (2 * r) || ((2 * r == unit) && (q % 2 == 1))

round_to : ℕ → ℕ → ℕ
round_to unit p = let q = p / unit in (if rounds_up unit q (p % unit) then q + 1 else q) * unit

-- A product rounded to 53 binary digits.
unfoldable pub round_53 : ℕ → ℕ
unfolding round_to
round_53 p = round_to (2 ^ (bits_below 256 p - 53)) p

-- `(n as f64 * x) as u64` for an `n` below 2 ^ 53.
unfoldable pub mul_trunc : ℕ → Dyadic → ℕ
unfolding round_53
mul_trunc n x = round_53 (n * x.mantissa) / 2 ^ x.scale

abbrev pub foundation_levy_era_1 : ℕ
foundation_levy_era_1 = day_height * 120

abbrev pub foundation_levy_era_2_onwards : ℕ
foundation_levy_era_2_onwards = day_height * 365

-- The nearest `f64` to each of 0.0888, 0.0777, 0.0666, 0.0555, 0.0444, 0.0333, 0.0222, 0.0111, 0.0111.
abbrev pub foundation_levy : List Dyadic
foundation_levy =
    record { mantissa = 6398714350568001; scale = 56 }
    ∷ record { mantissa = 5598875056747001; scale = 56 }
    ∷ record { mantissa = 4799035762926001; scale = 56 }
    ∷ record { mantissa = 7998392938210001; scale = 57 }
    ∷ record { mantissa = 6398714350568001; scale = 57 }
    ∷ record { mantissa = 4799035762926001; scale = 57 }
    ∷ record { mantissa = 6398714350568001; scale = 58 }
    ∷ record { mantissa = 6398714350568001; scale = 59 }
    ∷ record { mantissa = 6398714350568001; scale = 59 }
    ∷ []

-- The levy of an entry of the table; past its end there is none.
levy_of : ℕ → Option Dyadic → ℕ
levy_of total none = 0
levy_of total (some x) = mul_trunc total x

-- The index stays far below the bound of its `assert!` for every height below 2 ^ 51.
unfoldable pub reward_foundation_at_height : ℕ → ℕ
unfolding levy_of
reward_foundation_at_height height =
    let total = block_total_reward_at_height height in
    if leb height 0
    then 0
    else if leb height foundation_levy_era_1
    then levy_of total (get_elem? foundation_levy 0)
    else (let height_with_offset = height - foundation_levy_era_1 - 1 in
        let index = height_with_offset / foundation_levy_era_2_onwards + 1 in
        levy_of total (get_elem? foundation_levy index))

unfoldable pub reward_at_height : ℕ → ℕ
reward_at_height height = block_total_reward_at_height height - reward_foundation_at_height height

-- `saturating_add`
unfoldable pub reward : ℕ → ℕ → ℕ
reward fee height =
    let sum = reward_at_height height + fee in if ltb sum (2 ^ 64) then sum else 2 ^ 64 - 1

unfoldable pub is_foundation_height : ChainTypes → ℕ → Bool
is_foundation_height chain height =
    ltb 0 height
    && (height % foundation_height chain == 0)
    && not (reward_foundation_at_height height == 0)

-- `none` is the panic at height 0.
unfoldable pub foundation_index : ChainTypes → ℕ → Option ℕ
foundation_index chain height =
    if ltb 0 height then some (height / foundation_height chain - 1) else none

-- The levies of `count` blocks from `height` on.
unfoldable pub sum_levies : ℕ → ℕ → ℕ
sum_levies height zero = 0
sum_levies height (suc count) = reward_foundation_at_height height + sum_levies (height + 1) count

-- `none` is the failed assertion.
unfoldable pub cumulative_reward_foundation : ChainTypes → ℕ → Option ℕ
cumulative_reward_foundation chain height =
    if is_foundation_height chain height
    then some (
        let f_height = foundation_height chain in
        let n = height - f_height + 1 in sum_levies n (height + 1 - n))
    else none

or_panic : Option ℕ → ℕ
or_panic none = 0
or_panic (some n) = n

-- The call is made at foundation heights only, where it does not panic.
unfoldable pub add_reward_foundation : ChainTypes → ℕ → ℕ
unfolding or_panic
add_reward_foundation chain height =
    if is_foundation_height chain height
    then or_panic (cumulative_reward_foundation chain height)
    else 0

-- The sum of a release build, which wraps around where the fees are saturated.
unfoldable pub reward_foundation : ChainTypes → ℕ → ℕ → ℕ
reward_foundation chain fees height =
    (reward fees height + add_reward_foundation chain height) % 2 ^ 64

-- The sum over the heights from 1 on.
unfoldable pub sum_overage : ChainTypes → ℕ → ℕ
sum_overage chain zero = 0
sum_overage chain (suc height) =
    sum_overage chain height
    + (reward_at_height (suc height) + add_reward_foundation chain (suc height))

-- An `i64` in the source; Emission/Overage shows that the sum stays far below 2 ^ 63.
unfoldable pub total_overage_at_height : ChainTypes → ℕ → Bool → ℕ
total_overage_at_height chain height genesis_had_reward =
    (if genesis_had_reward then reward_at_height 0 else 0) + sum_overage chain height
