-- ===== src/Consensus/Policy/Eras.antt =====
-- The default policies against the eras of the block reward, and the bottles against a count of blocks.
use epic.Base.{
  ℕ, suc, ◌+◌, ◌-◌, ◌*◌, ◌%◌, ◌^◌, ◌≤◌, ◌<◌, ◌≡◌, refl, ap, ◌∙◌, arith, not, List, [], ◌∷◌, some,
  leb, ◌==◌, if◌then◌else◌, bit_and, dec_lt, length, Bool-cases, inl, inr,
}
use epic.Base.Bits.{bit_and-two_pow, two_pow_pos, two_pow_le, two_pow_suc, two_pow_add}
use epic.Consensus.Emission.{block_era_1, block_era_2, block_era_3, block_era_4, block_era_5}
use epic.Consensus.Retarget.{PoWType, cuckaroo, cuckatoo, random_x, prog_pow, same_pow}
use epic.Consensus.Policy.{
  started, max_by_height, last_value, search, is_allowed_policy, default_allowed, Policy,
  get_bottles_default, beans_of, sum_beans, count_beans, next_should_reset, add_bean,
  next_block_bottles,
}

-- The number of the reward's era, from 0.
unfoldable pub era : ℕ → ℕ
era height =
    if leb height block_era_1
    then 0
    else if leb height block_era_2
    then 1
    else if leb height block_era_3
    then 2
    else if leb height block_era_4
    then 3
    else if leb height block_era_5
    then 4
    else 5

search-era : (height : ℕ) → search default_allowed height ≡ some (2 ^ era height)
unfolding search started max_by_height last_value era
search-era height = ground arith

-- The bottles after the blocks of a list of algorithms, the newest first.
unfoldable pub bottles_after : List PoWType → Policy
bottles_after [] = get_bottles_default
bottles_after (pow ∷ pows) = next_block_bottles pow (bottles_after pows)

sum-add_bean : (pow : PoWType) (b : Policy) → sum_beans (add_bean pow b) ≡ sum_beans b + 1
unfolding sum_beans add_bean same_pow beans_of
sum-add_bean cuckaroo b = omega arith
sum-add_bean cuckatoo b = omega arith
sum-add_bean random_x b = omega arith
sum-add_bean prog_pow b = omega arith

two_pow_lt : (e p : ℕ) → e < p → 2 ^ e < 2 ^ p
two_pow_lt e p less = omega (arith, two_pow_le (suc e) p less, two_pow_suc e, two_pow_pos e)

-- A power of 2 above another is an even multiple of it.
two_pow_even : (e p : ℕ) → p < e → 2 ^ (e - p) % 2 ≡ 0
two_pow_even e p more =
    let next : e - p ≡ suc (e - p - 1) = omega arith in
    rw next (omega (arith, two_pow_suc (e - p - 1)))

bit_and-powers : (e p : ℕ) → p ≤ e → bit_and (2 ^ e) (2 ^ p) ≡ 2 ^ (e - p) % 2 * 2 ^ p
bit_and-powers e p le =
    let whole : e - p + p ≡ e = omega arith in
    let place : 2 ^ e ≡ 2 ^ (e - p) * 2 ^ p + 0 =
      omega (arith, two_pow_add (e - p) p, ap (λ (n : ℕ). 2 ^ n) whole) in
    ap (λ (n : ℕ). bit_and n (2 ^ p)) place ∙ bit_and-two_pow p (2 ^ (e - p)) 0 (two_pow_pos p)

one_bit-below : (e p : ℕ) → e < p → bit_and (2 ^ e) (2 ^ p) ≡ 0
one_bit-below e p less =
    let place : 2 ^ e ≡ 0 * 2 ^ p + 2 ^ e = omega arith in
    ap (λ (n : ℕ). bit_and n (2 ^ p)) place
    ∙ bit_and-two_pow p 0 (2 ^ e) (two_pow_lt e p less)
    ∙ omega arith

one_bit-above : (e p : ℕ) → p < e → bit_and (2 ^ e) (2 ^ p) ≡ 0
one_bit-above e p more =
    bit_and-powers e p (omega arith)
    ∙ ap (λ (n : ℕ). n * 2 ^ p) (two_pow_even e p more)
    ∙ omega arith

one_bit-same : (e : ℕ) → bit_and (2 ^ e) (2 ^ e) ≡ 2 ^ e
one_bit-same e =
    let none_left : e - e ≡ 0 = omega arith in
    bit_and-powers e e (omega arith) ∙ ap (λ (n : ℕ). 2 ^ n % 2 * 2 ^ e) none_left ∙ omega arith

one_bit : (e p : ℕ) → not (bit_and (2 ^ e) (2 ^ p) == 0) ≡ (p == e)
one_bit e p = elim (dec_lt e p) [
  | yes less ↦ ground (arith, one_bit-below e p less)
  | no more ↦ elim (dec_lt p e) [
    | yes above ↦ ground (arith, one_bit-above e p above)
    | no same ↦
        let equal : p ≡ e = omega arith in rw equal (ground (arith, one_bit-same e, two_pow_pos e))
  ]
]

-- At every height the default configuration allows, of the policies below 64, exactly that of the
-- reward's era.
pub is_allowed_policy-era :
    (height policy : ℕ)
    → policy < 64
    → is_allowed_policy default_allowed height policy ≡ some (policy == era height)
unfolding is_allowed_policy
is_allowed_policy-era height policy small =
    let inside : policy % 64 ≡ policy = omega (arith, small) in
    rw (is_allowed_policy, search-era height, inside) (ap some (one_bit (era height) policy))

no_beans : sum_beans get_bottles_default ≡ 0
unfolding sum_beans beans_of get_bottles_default
no_beans = refl

sum-next_block_bottles :
    (pow : PoWType) (b : Policy)
    → sum_beans (next_block_bottles pow b) ≡ (if count_beans b == 100 then 1 else sum_beans b + 1)
unfolding next_block_bottles next_should_reset get_bottles_default
sum-next_block_bottles pow b = elim (Bool-cases (count_beans b == 100)) [
  | inl full ↦ rw full (sum-add_bean pow get_bottles_default ∙ ap (λ (n : ℕ). n + 1) no_beans)
  | inr less ↦ rw less (sum-add_bean pow b)
]

-- With the bottles empty at the start, after any list of blocks with one at least there is one bean
-- more than the rest by 100 of the number of blocks before the last: the bottles fill up to 100, and
-- the next block empties them and adds its own bean.
pub sum_beans-bottles_after :
    (pow : PoWType) (pows : List PoWType)
    → sum_beans (bottles_after (pow ∷ pows)) ≡ length pows % 100 + 1
unfolding bottles_after count_beans
sum_beans-bottles_after pow [] =
    sum-next_block_bottles pow get_bottles_default ∙ ground (arith, no_beans)
sum_beans-bottles_after pow (pow' ∷ pows) =
    let before = sum_beans-bottles_after pow' pows in
    sum-next_block_bottles pow (bottles_after (pow' ∷ pows)) ∙ ground (arith, before)
