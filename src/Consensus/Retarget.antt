-- ===== src/Consensus/Retarget.antt =====
-- core/src/consensus.rs and core/src/global.rs: the difficulty of the next block.
pub mod Window
pub mod Step
pub mod Next
use epic.Base.{
  ℕ, zero, suc, ◌+◌, ◌-◌, ◌*◌, ◌/◌, ◌%◌, ◌^◌, min, max, Bool, true, false, List, [], ◌∷◌, ◌++◌,
  reverse, map, Option, none, some, leb, ltb, ◌==◌, if◌then◌else◌, get_elem?, length, take, drop,
}
use epic.Base.Bits.{u64_mod, u64}
use epic.Base.Signed.{ℤ, pos, negsuc, to_i64, ◌+ℤ◌, ◌-ℤ◌, ◌*ℤ◌, max_ℤ, to_u64, wrap_ℤ}
use epic.Consensus.Emission.{
  ChainTypes, automated_testing, user_testing, floonet, mainnet, block_time_sec, hour_height,
  week_height, year_height,
}

-- `PoWType` of core/src/pow/types.rs.
pub data PoWType : Type 0 where
  cuckaroo cuckatoo random_x prog_pow : PoWType

-- `Difficulty` of core/src/pow/types.rs: a map from algorithms to numbers.
abbrev pub Difficulty : Type 0
Difficulty = PoWType → Option ℕ

unfoldable pub to_num : Difficulty → PoWType → ℕ
to_num num pow = elim (num pow) [ none ↦ 0 | some n ↦ n ]

unfoldable pub same_pow : PoWType → PoWType → Bool
same_pow cuckaroo cuckaroo = true
same_pow cuckatoo cuckatoo = true
same_pow random_x random_x = true
same_pow prog_pow prog_pow = true
same_pow a b = false

unfoldable pub insert : PoWType → ℕ → Difficulty → Difficulty
insert pow n num other = if same_pow pow other then some n else num other

pub record HeaderInfo : Type 0 where
  pub timestamp : ℕ
  pub difficulty : Difficulty
  pub secondary_scaling : ℕ
  pub is_secondary : Bool
  pub prev_timespan : ℕ

unfoldable pub min_edge_bits : ChainTypes → ℕ
min_edge_bits automated_testing = 9
min_edge_bits user_testing = 15
min_edge_bits floonet = 19
min_edge_bits mainnet = 19

unfoldable pub base_edge_bits : ChainTypes → ℕ
base_edge_bits automated_testing = 9
base_edge_bits user_testing = 15
base_edge_bits floonet = 24
base_edge_bits mainnet = 24

-- The shifts and products of words of 64 bits in a release build.
unfoldable pub graph_weight : ChainTypes → ℕ → ℕ → ℕ
graph_weight chain height edge_bits =
    let least = min_edge_bits chain in
    let min_edge_bits = if least == 19 then least + 12 else least in
    let bits_over_min = edge_bits - min_edge_bits in
    let expiry_height = u64 (
      u64 (2 ^ (bits_over_min % 64))
      * (if ltb 880_000 height then year_height * 100 else year_height)) in
    let xpr_edge_bits =
      if leb expiry_height height
      then edge_bits - (1 + (height - expiry_height) / week_height)
      else edge_bits in
    let base = base_edge_bits chain in
    let over = if ltb base edge_bits then edge_bits - base else base - edge_bits in
    u64 (u64 (2 * 2 ^ (over % 64)) * xpr_edge_bits)

unfoldable pub initial_graph_weight : ChainTypes → ℕ
initial_graph_weight automated_testing = 1
initial_graph_weight user_testing = 1
initial_graph_weight floonet = graph_weight floonet 0 31
initial_graph_weight mainnet = graph_weight mainnet 0 31

unfoldable pub from_ts_diff : ChainTypes → ℕ → Difficulty → HeaderInfo
from_ts_diff chain timestamp difficulty = record {
  timestamp = timestamp;
  difficulty = difficulty;
  secondary_scaling = initial_graph_weight chain;
  is_secondary = true;
  prev_timespan = 0;
}

unfoldable pub from_diff_scaling : Difficulty → ℕ → HeaderInfo
from_diff_scaling difficulty secondary_scaling = record {
  timestamp = 1;
  difficulty = difficulty;
  secondary_scaling = secondary_scaling;
  is_secondary = true;
  prev_timespan = 0;
}

-- The loop over `last_n[i]`: a header's time is read off the header after it.
unfoldable pub relink : HeaderInfo → List HeaderInfo → List HeaderInfo
relink after [] = []
relink after (x ∷ xs) =
    let x' = record x { timestamp = after.timestamp - after.prev_timespan } in x' ∷ relink x' xs

-- The simulated blocks that fill up a short window.
unfoldable pub simulate : ChainTypes → ℕ → ℕ → ℕ → Difficulty → List HeaderInfo
simulate chain zero last_ts last_ts_delta last_diff = []
simulate chain (suc count) last_ts last_ts_delta last_diff =
    let ts = last_ts - last_ts_delta in
    from_ts_diff chain ts last_diff ∷ simulate chain count ts last_ts_delta last_diff

-- `last_n.last()` of a list with a first header.
unfoldable pub last_of : HeaderInfo → List HeaderInfo → HeaderInfo
last_of x [] = x
last_of x (y ∷ ys) = last_of y ys

unfoldable pub last_delta : HeaderInfo → List HeaderInfo → ℕ
last_delta x [] = block_time_sec
last_delta x (y ∷ ys) = x.timestamp - y.timestamp

-- `none` is the panic of `last_n[0]` without a header.
unfoldable pub fill_window : ChainTypes → ℕ → List HeaderInfo → Option (List HeaderInfo)
fill_window chain needed [] = none
fill_window chain needed (x ∷ xs) =
    let last_n = relink x xs in
    some (
      x ∷ last_n
      ++ simulate chain (needed - length (x ∷ last_n)) (last_of x last_n).timestamp
          (last_delta x last_n) x.difficulty)

-- The newest header first.
unfoldable pub ts_data_to_vector : ChainTypes → List HeaderInfo → ℕ → Option (List HeaderInfo)
ts_data_to_vector chain cursor needed_block_count =
    fill_window chain (needed_block_count + 1) (take (needed_block_count + 1) cursor)

unfoldable pub difficulty_data_to_vector :
    ChainTypes → List HeaderInfo → ℕ → Option (List HeaderInfo)
difficulty_data_to_vector chain cursor needed_block_count =
    elim (ts_data_to_vector chain cursor needed_block_count) [
      | none ↦ none
      | some last_n ↦ some (reverse last_n)
    ]

abbrev pub difficulty_adjust_window : ℕ
difficulty_adjust_window = hour_height

abbrev pub block_time_window : ℕ
block_time_window = difficulty_adjust_window * block_time_sec

-- A difference of two `u64`, wrapped.
unfoldable pub wrapping_sub : ℕ → ℕ → ℕ
wrapping_sub a b = if ltb a b then a + u64_mod - b else a - b

unfoldable pub damp : ℕ → ℕ → ℕ → ℕ
damp actual goal damp_factor = u64 (actual + (damp_factor - 1) * goal) / damp_factor

unfoldable pub clamp : ℕ → ℕ → ℕ → ℕ
clamp actual goal clamp_factor = max (goal / clamp_factor) (min actual (goal * clamp_factor))

unfoldable pub sum_difficulty : PoWType → List HeaderInfo → ℕ
sum_difficulty pow [] = 0
sum_difficulty pow (x ∷ xs) = to_num x.difficulty pow + sum_difficulty pow xs

-- The last line of a retarget by a window: the difficulties' sum over the adjusted time.
unfoldable pub retarget : ℕ → ℕ → ℕ → ℕ
retarget min_difficulty diff_sum ts_delta =
    let adj_ts = clamp (damp ts_delta block_time_window 3) block_time_window 2 in
    max min_difficulty (u64 (u64 diff_sum * block_time_sec) / adj_ts)

unfoldable pub next_cuckoo_difficulty : PoWType → List HeaderInfo → Option ℕ
next_cuckoo_difficulty pow diff_data = elim (get_elem? diff_data difficulty_adjust_window) [
  | none ↦ none
  | some newest ↦ elim (get_elem? diff_data 0) [
    | none ↦ none
    | some oldest ↦ some (
        retarget 3 (sum_difficulty pow (drop 1 diff_data))
          (wrapping_sub newest.timestamp oldest.timestamp))
  ]
]

-- The times between blocks of the same algorithm, of all headers but the newest.
unfoldable pub sum_timespans : List HeaderInfo → ℕ
sum_timespans [] = 0
sum_timespans (x ∷ []) = 0
sum_timespans (x ∷ y ∷ ys) = x.timestamp - (x.timestamp - x.prev_timespan) + sum_timespans (y ∷ ys)

unfoldable pub min_difficulty_era1 : PoWType → ℕ
min_difficulty_era1 cuckaroo = 3
min_difficulty_era1 cuckatoo = 3
min_difficulty_era1 random_x = 4000
min_difficulty_era1 prog_pow = 200000

-- The three functions of the first era, which differ in the minimum only.
unfoldable pub next_difficulty_of_era1 : PoWType → List HeaderInfo → ℕ
next_difficulty_of_era1 pow diff_data =
    retarget (min_difficulty_era1 pow) (sum_difficulty pow (drop 1 diff_data))
      (u64 (sum_timespans diff_data))

-- `min_diff` of the two algorithms that the source calls it with; `none` is the panic.
unfoldable pub old_min_difficulty : PoWType → Option ℕ
old_min_difficulty random_x = some 5000
old_min_difficulty prog_pow = some 100000
old_min_difficulty cuckaroo = none
old_min_difficulty cuckatoo = none

-- `max(1 - 2 * (ts_delta as i64 / 60), -99)`, of a time below 2 ^ 63.
unfoldable pub hash_sign : ℕ → ℤ
hash_sign ts_delta = max_ℤ (pos 1 -ℤ pos (2 * (ts_delta / 60))) (negsuc 98)

-- The product and the sum are those of an `i64` in a release build.
unfoldable pub hash_step : ℕ → ℕ → ℕ → ℕ
hash_step min_diff current_diff ts_delta =
    let offset = to_i64 (current_diff / 64) in
    let stepped = wrap_ℤ (to_i64 current_diff +ℤ wrap_ℤ (offset *ℤ hash_sign ts_delta)) in
    max (to_u64 (max_ℤ stepped (pos 1))) (min current_diff min_diff)

unfoldable pub next_hash_difficulty : PoWType → List HeaderInfo → Option ℕ
next_hash_difficulty pow (previous ∷ current ∷ rest) = elim (old_min_difficulty pow) [
  | none ↦ none
  | some min_diff ↦ some (
      hash_step min_diff (to_num current.difficulty pow)
        (wrapping_sub current.timestamp previous.timestamp))
]
next_hash_difficulty pow (previous ∷ []) = none
next_hash_difficulty pow [] = none

unfoldable pub ar_count : List HeaderInfo → ℕ
ar_count [] = 0
ar_count (x ∷ xs) = (if x.is_secondary then 100 else 0) + ar_count xs

unfoldable pub secondary_pow_ratio : ℕ → ℕ
secondary_pow_ratio height = 90 - height / (2 * year_height / 90)

unfoldable pub sum_scaling : List HeaderInfo → ℕ
sum_scaling [] = 0
sum_scaling (x ∷ xs) = x.secondary_scaling + sum_scaling xs

-- A `u32`.
unfoldable pub secondary_pow_scaling : ℕ → List HeaderInfo → ℕ
secondary_pow_scaling height diff_data =
    let target_pct = secondary_pow_ratio height in
    let target_count = difficulty_adjust_window * target_pct in
    let adj_count = clamp (damp (ar_count diff_data) target_count 13) target_count 2 in
    max 13 (sum_scaling diff_data * target_pct / max 1 adj_count) % 2 ^ 32

unfoldable pub is_cuckoo : PoWType → Bool
is_cuckoo cuckaroo = true
is_cuckoo cuckatoo = true
is_cuckoo random_x = false
is_cuckoo prog_pow = false

-- The new difficulty of the algorithm, beside the others of the newest header.
unfoldable pub next_info : ℕ → PoWType → List HeaderInfo → Option ℕ → Option HeaderInfo
next_info height pow [] next = none
next_info height pow (x ∷ xs) none = none
next_info height pow (x ∷ xs) (some next) = some (
    from_diff_scaling (insert pow next (last_of x xs).difficulty) (secondary_pow_scaling height xs))

unfoldable pub next_difficulty : ChainTypes → ℕ → PoWType → List HeaderInfo → Option HeaderInfo
next_difficulty chain height prev_algo cursor =
    let window = if is_cuckoo prev_algo then difficulty_adjust_window else 1 in
    elim (difficulty_data_to_vector chain cursor window) [
      | none ↦ none
      | some diff_data ↦ next_info height prev_algo diff_data (
          if is_cuckoo prev_algo
          then next_cuckoo_difficulty prev_algo diff_data
          else next_hash_difficulty prev_algo diff_data)
    ]

unfoldable pub next_difficulty_era1 : ChainTypes → ℕ → PoWType → List HeaderInfo → Option HeaderInfo
next_difficulty_era1 chain height prev_algo cursor =
    elim (difficulty_data_to_vector chain cursor difficulty_adjust_window) [
      | none ↦ none
      | some diff_data ↦
          next_info height prev_algo diff_data (some (next_difficulty_of_era1 prev_algo diff_data))
    ]
