-- ===== src/Consensus/Policy.antt =====
-- core/src/core/block/feijoada.rs: which policy on proof-of-work algorithms is allowed at a height, and
-- the bottles that count the blocks of each algorithm.
pub mod Eras
use epic.Base.{
  ℕ, zero, suc, ◌+◌, ◌*◌, ◌%◌, ◌^◌, max, Bool, true, false, not, List, [], ◌∷◌, Option, some, none,
  leb, ltb, ◌==◌, if◌then◌else◌, bit_and,
}
use epic.Consensus.Emission.{block_era_1, block_era_2, block_era_3, block_era_4, block_era_5}
use epic.Consensus.Retarget.{PoWType, cuckaroo, cuckatoo, random_x, prog_pow, same_pow}

pub record AllowPolicy : Type 0 where
  pub height : ℕ
  pub value : ℕ

unfoldable pub started : ℕ → List AllowPolicy → List AllowPolicy
started height [] = []
started height (x ∷ xs) = if leb x.height height then x ∷ started height xs else started height xs

-- Of several with the same height `max_by` takes the last.
unfoldable pub max_by_height : List AllowPolicy → Option AllowPolicy
max_by_height [] = none
max_by_height (x ∷ xs) = elim (max_by_height xs) [
  | none ↦ some x
  | some y ↦ some (if ltb y.height x.height then x else y)
]

unfoldable pub last_value : List AllowPolicy → Option ℕ
last_value [] = none
last_value (x ∷ xs) = elim (last_value xs) [ none ↦ some x.value | some v ↦ some v ]

-- `none` is the panic on an empty list.
unfoldable pub search : List AllowPolicy → ℕ → Option ℕ
search allowed height = elim (max_by_height (started height allowed)) [
  | none ↦ last_value allowed
  | some p ↦ some p.value
]

-- `1 << policy` of a release build: the shift is by the rest by 64.
unfoldable pub is_allowed_policy : List AllowPolicy → ℕ → ℕ → Option Bool
is_allowed_policy allowed height policy = elim (search allowed height) [
  | none ↦ none
  | some allow ↦ some (not (bit_and allow (2 ^ (policy % 64)) == 0))
]

-- The allowed policies of `PolicyConfig::default`.
abbrev pub default_allowed : List AllowPolicy
default_allowed =
    record { height = 0; value = 2 ^ 0 }
    ∷ record { height = block_era_1 + 1; value = 2 ^ 1 }
    ∷ record { height = block_era_2 + 1; value = 2 ^ 2 }
    ∷ record { height = block_era_3 + 1; value = 2 ^ 3 }
    ∷ record { height = block_era_4 + 1; value = 2 ^ 4 }
    ∷ record { height = block_era_5 + 1; value = 2 ^ 5 }
    ∷ []

-- A `Policy`: the beans of each algorithm.
abbrev pub Policy : Type 0
Policy = PoWType → Option ℕ

unfoldable pub get_bottles_default : Policy
get_bottles_default pow = some 0

unfoldable pub beans_of : Option ℕ → ℕ
beans_of none = 0
beans_of (some n) = n

unfoldable pub sum_beans : Policy → ℕ
sum_beans bottles =
    beans_of (bottles cuckaroo)
    + beans_of (bottles cuckatoo)
    + beans_of (bottles random_x)
    + beans_of (bottles prog_pow)

unfoldable pub count_beans : Policy → ℕ
count_beans bottles = max (sum_beans bottles) 1

unfoldable pub next_should_reset : Policy → Bool
next_should_reset bottle = count_beans bottle == 100

unfoldable pub add_bean : PoWType → Policy → Policy
add_bean pow bottle other =
    if same_pow pow other then some (beans_of (bottle other) + 1) else bottle other

unfoldable pub next_block_bottles : PoWType → Policy → Policy
next_block_bottles pow bottle =
    add_bean pow (if next_should_reset bottle then get_bottles_default else bottle)

-- The shares that `default` inserts: RandomX, ProgPow, Cuckatoo and Cuckaroo.
abbrev pub shares : ℕ → ℕ → ℕ → ℕ → Policy
shares rx pp ct cr random_x = some rx
shares rx pp ct cr prog_pow = some pp
shares rx pp ct cr cuckatoo = some ct
shares rx pp ct cr cuckaroo = some cr

-- The policies of `PolicyConfig::default`.
abbrev pub default_policies : List Policy
default_policies =
    shares 60 38 2 0
    ∷ shares 60 38 2 0
    ∷ shares 48 48 4 0
    ∷ shares 5 40 55 0
    ∷ shares 5 20 75 0
    ∷ shares 5 10 85 0
    ∷ []
