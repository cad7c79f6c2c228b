-- ===== src/Consensus/Retarget/Next.antt =====
-- `next_difficulty` as a whole.
use epic.Base.{
  ℕ, ◌+◌, ◌/◌, ◌<◌, ◌≡◌, refl, sym, ap, ◌∙◌, arith, true, false, List, [], ◌∷◌, Option, some, none,
  length, get_elem?, if◌then◌else◌,
}
use epic.Base.Signed.{ℤ, pos, negsuc, to_i64, to_u64, wrap_ℤ, max_ℤ, ◌+ℤ◌, ◌*ℤ◌}
use epic.Consensus.Emission.{ChainTypes}
use epic.Consensus.Retarget.{
  PoWType, cuckaroo, cuckatoo, random_x, prog_pow, HeaderInfo, same_pow, insert, is_cuckoo, last_of,
  from_diff_scaling, secondary_pow_scaling, next_info, next_cuckoo_difficulty, next_hash_difficulty,
  old_min_difficulty, next_difficulty, hash_step, hash_sign, sum_difficulty, wrapping_sub,
  Difficulty, difficulty_adjust_window, retarget, difficulty_data_to_vector,
}
use epic.Consensus.Retarget.Step.{get_elem?-some}
use epic.Consensus.Retarget.Window.{difficulty_data_to_vector-Rising}

get_elem?-last_of :
    (x : HeaderInfo) (xs : List HeaderInfo) → get_elem? (x ∷ xs) (length xs) ≡ some (last_of x xs)
unfolding last_of
get_elem?-last_of x [] = refl
get_elem?-last_of x (y ∷ ys) = get_elem?-last_of y ys

above_zero : (z : ℤ) → 0 < to_u64 (max_ℤ z (pos 1))
above_zero (pos n) = omega arith
above_zero (negsuc n) = omega arith

hash_step-pos : (least diff delta : ℕ) → 0 < hash_step least diff delta
unfolding hash_step
hash_step-pos least diff delta =
    omega
      (arith, above_zero (wrap_ℤ (to_i64 diff +ℤ wrap_ℤ (to_i64 (diff / 64) *ℤ hash_sign delta))))

-- Some difficulty, above 0.
Positive : Option ℕ → Type 0
Positive next = (n : ℕ) × (next ≡ some n) × (0 < n)

cuckoo-Positive :
    (pow : PoWType) (v : List HeaderInfo) → length v ≡ 61 → Positive (next_cuckoo_difficulty pow v)
unfolding Positive next_cuckoo_difficulty retarget
cuckoo-Positive pow [] size = absurd (omega arith)
cuckoo-Positive pow (oldest ∷ xs) size =
    let (newest, found) = get_elem?-some xs 59 (omega arith) in
    let n = retarget 3 (sum_difficulty pow xs) (wrapping_sub newest.timestamp oldest.timestamp) in
    (n, rw found refl, omega arith)

hash-Positive :
    (pow : PoWType) (v : List HeaderInfo)
    → is_cuckoo pow ≡ false
    → length v ≡ 2
    → Positive (next_hash_difficulty pow v)
unfolding Positive next_hash_difficulty old_min_difficulty is_cuckoo
hash-Positive random_x (previous ∷ current ∷ rest) hashed size = (_, refl, hash_step-pos _ _ _)
hash-Positive prog_pow (previous ∷ current ∷ rest) hashed size = (_, refl, hash_step-pos _ _ _)
hash-Positive cuckaroo v hashed size = absurd (cc)
hash-Positive cuckatoo v hashed size = absurd (cc)
hash-Positive pow [] hashed size = absurd (omega arith)
hash-Positive pow (previous ∷ []) hashed size = absurd (omega arith)

insert-same : (pow : PoWType) → same_pow pow pow ≡ true
unfolding same_pow
insert-same cuckaroo = refl
insert-same cuckatoo = refl
insert-same random_x = refl
insert-same prog_pow = refl

abbrev difficulty_of : HeaderInfo → Option HeaderInfo → Difficulty
difficulty_of y o = elim o [ none ↦ y.difficulty | some h ↦ h.difficulty ]

next_info_lem :
    (height : ℕ) (pow : PoWType) (v : List HeaderInfo) (k : ℕ) (x : HeaderInfo) (next : Option ℕ)
    → length v ≡ k + 1
    → get_elem? v k ≡ some x
    → Positive next
    → (info : HeaderInfo) × (n : ℕ) × (next_info height pow v next ≡ some info)
      × (0 < n)
      × (info.difficulty ≡ insert pow n x.difficulty)
unfolding Positive next_info from_diff_scaling
next_info_lem height pow [] k x next size newest positive = absurd (omega arith)
next_info_lem height pow (y ∷ ys) k x next size newest (n, found, above) = (
  from_diff_scaling (insert pow n (last_of y ys).difficulty) (secondary_pow_scaling height ys),
  n,
  rw found refl,
  above,
  ap (insert pow n) (ap {B = Difficulty} (λ (o : Option HeaderInfo). difficulty_of y o) last),
)
  where
    last : some (last_of y ys) ≡ some x
    last =
        sym (get_elem?-last_of y ys)
        ∙ ap (get_elem? (y ∷ ys)) {x = length ys} {y = k} (omega arith)
        ∙ newest

insert_same : (pow : PoWType) (n : ℕ) (old : PoWType → Option ℕ) → insert pow n old pow ≡ some n
unfolding insert
insert_same pow n old = rw (insert-same pow) refl

insert_other :
    (pow other : PoWType) (n : ℕ) (old : PoWType → Option ℕ)
    → same_pow pow other ≡ false
    → insert pow n old other ≡ old other
unfolding insert
insert_other pow other n old differ = rw differ refl

-- The window and the rule of an algorithm.
abbrev window_of : PoWType → ℕ
window_of pow = if is_cuckoo pow then difficulty_adjust_window else 1

abbrev next_of : PoWType → List HeaderInfo → Option ℕ
next_of pow v = if is_cuckoo pow then next_cuckoo_difficulty pow v else next_hash_difficulty pow v

next_of-Positive :
    (pow : PoWType) (v : List HeaderInfo) → length v ≡ window_of pow + 1 → Positive (next_of pow v)
unfolding is_cuckoo
next_of-Positive cuckaroo v size = cuckoo-Positive cuckaroo v size
next_of-Positive cuckatoo v size = cuckoo-Positive cuckatoo v size
next_of-Positive random_x v size = hash-Positive random_x v refl size
next_of-Positive prog_pow v size = hash-Positive prog_pow v refl size

next_difficulty-next_info :
    (chain : ChainTypes) (height : ℕ) (pow : PoWType) (cursor v : List HeaderInfo)
    (info : HeaderInfo)
    → difficulty_data_to_vector chain cursor (window_of pow) ≡ some v
    → next_info height pow v (next_of pow v) ≡ some info
    → next_difficulty chain height pow cursor ≡ some info
unfolding next_difficulty
next_difficulty-next_info chain height pow cursor v info window next =
    rw (next_difficulty, window) next

-- With at least one header `next_difficulty` succeeds, for every algorithm: the new difficulty of
-- that algorithm is above 0, and those of the other algorithms are the newest header's.
pub next_difficulty-total :
    (chain : ChainTypes) (height : ℕ) (pow : PoWType) (x : HeaderInfo) (xs : List HeaderInfo)
    → (info : HeaderInfo) × (n : ℕ) × (next_difficulty chain height pow (x ∷ xs) ≡ some info)
      × (0 < n)
      × (info.difficulty pow ≡ some n)
      × ((other : PoWType)
          → same_pow pow other ≡ false
          → info.difficulty other ≡ x.difficulty other)
next_difficulty-total chain height pow x xs =
    let (v, window, size, newest, rising) =
      difficulty_data_to_vector-Rising chain x xs (window_of pow) in
    let (info, n, next, above, inserted) =
      next_info_lem height pow v (window_of pow) x (next_of pow v) size newest
        (next_of-Positive pow v size) in
    (
      info,
      n,
      next_difficulty-next_info chain height pow (x ∷ xs) v info window next,
      above,
      ap (λ (d : Difficulty). d pow) inserted ∙ insert_same pow n x.difficulty,
      λ other differ.
          ap (λ (d : Difficulty). d other) inserted ∙ insert_other pow other n x.difficulty differ,
    )
