-- ===== src/Pow/Maps.antt =====
-- Maps from the algorithms: `Difficulty` of core/src/pow/types.rs and `Policy` of
-- core/src/core/block/feijoada.rs, the arithmetic of the first, and the bytes of both.
use epic.Base.{
  ℕ, zero, suc, ◌+◌, ◌-◌, ◌*◌, ◌%◌, ◌^◌, max, List, [], ◌∷◌, ◌++◌, Option, none, some, length, ◌==◌,
  if◌then◌else◌,
}
use epic.Consensus.Retarget.{PoWType, cuckaroo, cuckatoo, random_x, prog_pow, Difficulty, insert}
use epic.Ser.{Packages, Reader, ◌>>=◌, pure, ok_or, write_uint, read_uint, corrupted_data}

unfoldable pub to_u8 : PoWType → ℕ
to_u8 cuckaroo = 0
to_u8 cuckatoo = 1
to_u8 random_x = 2
to_u8 prog_pow = 3

-- `none` is `CorruptedData`.
unfoldable pub try_from : ℕ → Option PoWType
try_from v =
    if v == 0
    then some cuckaroo
    else if v == 1
    then some cuckatoo
    else if v == 2
    then some random_x
    else if v == 3
    then some prog_pow
    else none

-- `DifficultyNumber::number`
unfoldable pub number : ℕ → Difficulty
number v pow = some v

unfoldable pub from_num : ℕ → Difficulty
from_num num = number (max num 1)

unfoldable pub empty_map : Difficulty
empty_map pow = none

-- The loops of the operators, which start from zero for every algorithm: `other` gives what a missing
-- key counts as.
unfoldable pub combine : (ℕ → ℕ → ℕ) → ℕ → Difficulty → Difficulty → Difficulty
combine f missing self other pow = elim (self pow) [
  | none ↦ some 0
  | some v ↦ elim (other pow) [ none ↦ some (f v missing) | some w ↦ some (f v w) ]
]

-- The words wrap around.
unfoldable pub add : Difficulty → Difficulty → Difficulty
add = combine (λ v w. (v + w) % 2 ^ 64) 0

unfoldable pub sub : Difficulty → Difficulty → Difficulty
sub = combine (λ v w. (v + 2 ^ 64 - w) % 2 ^ 64) 0

unfoldable pub mul : Difficulty → Difficulty → Difficulty
mul = combine (λ v w. v * w % 2 ^ 64) 1

-- The entry of an algorithm, where it has one.
unfoldable pub entry : Difficulty → PoWType → List (PoWType × ℕ)
entry num pow = elim (num pow) [ none ↦ [] | some n ↦ (pow, n) ∷ [] ]

-- The sorted vector of the entries.
unfoldable pub entries : Difficulty → List (PoWType × ℕ)
entries num =
    entry num cuckaroo ++ (entry num cuckatoo ++ (entry num random_x ++ entry num prog_pow))

module _ (p : Packages) (width : ℕ) where
  unfoldable pub write_entries : List (PoWType × ℕ) → List ℕ
  write_entries [] = []
  write_entries ((pow, n) ∷ rest) =
      write_uint p 1 (to_u8 pow) ++ (write_uint p width n ++ write_entries rest)

  -- `width` is 8 bytes for a difficulty and 4 for a policy.
  unfoldable pub write_map : Difficulty → List ℕ
  write_map num = write_uint p 8 (length (entries num)) ++ write_entries (entries num)

  unfoldable pub read_entries : ℕ → Difficulty → Reader Difficulty
  read_entries zero result = pure result
  read_entries (suc len) result = do
    pow ← read_uint p 1
    count ← read_uint p width
    pow_type ← ok_or (try_from pow) corrupted_data
    read_entries len (insert pow_type count result)

  unfoldable pub read_map : Reader Difficulty
  read_map = do len ← read_uint p 8; read_entries len empty_map
