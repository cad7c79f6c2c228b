-- ===== src/Chain/Conditions.antt =====
-- The single conditions of chain/src/pipe.rs on a header, against what they ask for.
use epic.Base.{
  ℕ, ◌-◌, ◌*◌, ◌/◌, ◌≤◌, ◌<◌, ◌≡◌, ◌≢◌, refl, ap, subst, ==_iff, arith, ◌↔◌, ◌⊎◌, inl, inr, Bool,
  true, false, not, ◌&&◌, ◌||◌, List, [], ◌∷◌, Option, none, some, leb, ltb, ◌==◌, Bool-cases,
}
use epic.Base.Predicates.{All}
use epic.Consensus.Emission.{ChainTypes, difficultyfix_height}
use epic.Consensus.Retarget.{
  PoWType, cuckaroo, cuckatoo, random_x, prog_pow, same_pow, Difficulty, HeaderInfo, min_edge_bits,
  next_difficulty, next_difficulty_era1,
}
use epic.Consensus.Policy.{Policy, get_bottles_default}
use epic.Pow.Proof.{
  Proof, cuckoo_proof, md5_proof, random_x_proof, prog_pow_proof, ProofOfWork, is_primary,
  is_secondary,
}
use epic.Block.Header.{BlockHeader, valid_header_version, hash_header}
use epic.Chain.Difficulty.{pow_type, rx_current_seed_height}
use epic.Chain.Errors.{both, ◌then_iff◌}
use epic.Chain.Headers.{
  BlockContext, contains, same_entry, same_difficulty, next_algo, is_correct_algo, is_cuckoo_proof,
  next_header_info,
}

pub valid_header_version_iff :
    (height version : ℕ) → (valid_header_version height version ≡ true) ↔ (version ≡ 6)
unfolding valid_header_version
valid_header_version_iff height version = ground arith

pub contains_iff : (xs : List ℕ) (h : ℕ) → (contains xs h ≡ false) ↔ All (λ x. h ≢ x) xs
unfolding contains
contains_iff [] h = (λ e. tt, λ a. refl)
contains_iff (x ∷ xs) h = ground (arith, contains_iff xs h)

-- A proof of a graph is of 31 bits, or of the chain's least at least; a hash is of no size.
unfoldable pub IsLarge : ChainTypes → Proof → Type 0
IsLarge chain (cuckoo_proof bits nonces) = (bits ≡ 31) ⊎ (min_edge_bits chain ≤ bits)
IsLarge chain (md5_proof bits text) = (bits ≡ 31) ⊎ (min_edge_bits chain ≤ bits)
IsLarge chain (random_x_proof bytes) = Unit
IsLarge chain (prog_pow_proof bytes) = Unit

large_iff :
    (least bits : ℕ)
    → (((not (bits == 31) && leb least bits) || (bits == 31)) ≡ true)
      ↔ ((bits ≡ 31) ⊎ (least ≤ bits))
large_iff least bits = ground arith

pub is_primary_iff :
    (chain : ChainTypes) (pow : ProofOfWork) (proof : Proof)
    → pow.proof ≡ proof
    → ((is_primary chain pow || is_secondary pow) ≡ true) ↔ IsLarge chain proof
unfolding is_primary is_secondary IsLarge
is_primary_iff chain pow (cuckoo_proof bits nonces) e =
    rw (is_primary, is_secondary, e) (large_iff (min_edge_bits chain) bits)
is_primary_iff chain pow (md5_proof bits text) e =
    rw (is_primary, is_secondary, e) (large_iff (min_edge_bits chain) bits)
is_primary_iff chain pow (random_x_proof bytes) e =
    rw (is_primary, is_secondary, e) (λ h. tt, λ h. refl)
is_primary_iff chain pow (prog_pow_proof bytes) e =
    rw (is_primary, is_secondary, e) (λ h. tt, λ h. refl)

-- The height of the seed of a height: less 61, or zero, rounded down to a thousand.
pub rx_current_seed_height-thousand :
    (height : ℕ) → rx_current_seed_height height ≡ (height - 61) / 1000 * 1000
unfolding rx_current_seed_height
rx_current_seed_height-thousand height = ground arith

pub seed_iff :
    (found height : ℕ)
    → ((found == rx_current_seed_height height) ≡ true) ↔ (found ≡ (height - 61) / 1000 * 1000)
seed_iff found height = ground (arith, rx_current_seed_height-thousand height)

-- The algorithm whose proofs these are, as a policy asks for it.
unfoldable pub IsOf : PoWType → Proof → Type 0
IsOf algo (cuckoo_proof bits nonces) =
    ((bits ≡ 29) × (algo ≡ cuckaroo)) ⊎ ((bits ≢ 29) × (algo ≡ cuckatoo))
IsOf algo (md5_proof bits text) = ⊥
IsOf algo (random_x_proof bytes) = algo ≡ random_x
IsOf algo (prog_pow_proof bytes) = algo ≡ prog_pow

same_pow_iff : (a b : PoWType) → (same_pow a b ≡ true) ↔ (a ≡ b)
unfolding same_pow
same_pow_iff cuckaroo cuckaroo = (λ h. refl, λ h. refl)
same_pow_iff cuckaroo cuckatoo = (λ h. cc, λ h. cc)
same_pow_iff cuckaroo random_x = (λ h. cc, λ h. cc)
same_pow_iff cuckaroo prog_pow = (λ h. cc, λ h. cc)
same_pow_iff cuckatoo cuckaroo = (λ h. cc, λ h. cc)
same_pow_iff cuckatoo cuckatoo = (λ h. refl, λ h. refl)
same_pow_iff cuckatoo random_x = (λ h. cc, λ h. cc)
same_pow_iff cuckatoo prog_pow = (λ h. cc, λ h. cc)
same_pow_iff random_x cuckaroo = (λ h. cc, λ h. cc)
same_pow_iff random_x cuckatoo = (λ h. cc, λ h. cc)
same_pow_iff random_x random_x = (λ h. refl, λ h. refl)
same_pow_iff random_x prog_pow = (λ h. cc, λ h. cc)
same_pow_iff prog_pow cuckaroo = (λ h. cc, λ h. cc)
same_pow_iff prog_pow cuckatoo = (λ h. cc, λ h. cc)
same_pow_iff prog_pow random_x = (λ h. cc, λ h. cc)
same_pow_iff prog_pow prog_pow = (λ h. refl, λ h. refl)

is_correct_algo_iff :
    (proof : Proof) (algo : PoWType) → (is_correct_algo proof algo ≡ true) ↔ IsOf algo proof
unfolding is_correct_algo IsOf
is_correct_algo_iff (cuckoo_proof bits nonces) algo =
    ground (arith, same_pow_iff algo cuckaroo, same_pow_iff algo cuckatoo)
is_correct_algo_iff (md5_proof bits text) algo = (λ h. cc, λ h. elim h [ ])
is_correct_algo_iff (random_x_proof bytes) algo = same_pow_iff algo random_x
is_correct_algo_iff (prog_pow_proof bytes) algo = same_pow_iff algo prog_pow

-- The bottles of the last header of the cursor, or the empty ones.
unfoldable pub IsNewest : Policy → List Policy → Type 0
IsNewest bottles [] = bottles ≡ get_bottles_default
IsNewest bottles (x ∷ cursor) = bottles ≡ x

pub algo_iff :
    (proof : Proof) (choose_algo : Policy → Policy → PoWType) (policy : Policy)
    (cursor : List Policy)
    → (is_correct_algo proof (next_algo choose_algo policy cursor) ≡ true)
      ↔ ((bottles : Policy) × IsNewest bottles cursor × IsOf (choose_algo policy bottles) proof)
unfolding next_algo IsNewest
algo_iff proof choose_algo policy [] = (
  λ h. (get_bottles_default, refl, (is_correct_algo_iff proof _).0 h),
  λ h.
      (let newest = h.1 in
        (is_correct_algo_iff proof _).1
          (subst (λ z. IsOf (choose_algo policy z) proof) newest h.2)),
)
algo_iff proof choose_algo policy (x ∷ cursor) = (
  λ h. (x, refl, (is_correct_algo_iff proof _).0 h),
  λ h.
      (let newest = h.1 in
        (is_correct_algo_iff proof _).1
          (subst (λ z. IsOf (choose_algo policy z) proof) newest h.2)),
)

same_entry_iff : (a b : Option ℕ) → (same_entry a b ≡ true) ↔ (a ≡ b)
unfolding same_entry
same_entry_iff none none = (λ h. refl, λ h. refl)
same_entry_iff none (some y) = (λ h. cc, λ h. cc)
same_entry_iff (some x) none = (λ h. cc, λ h. cc)
same_entry_iff (some x) (some y) = (λ h. ap some ((==_iff x y).0 h), λ h. (==_iff x y).1 (cc h))

and_iff : (a b : Bool) → ((a && b) ≡ true) ↔ ((a ≡ true) × (b ≡ true))
and_iff true b = (λ h. (refl, h), λ h. h.1)
and_iff false b = (λ h. cc, λ h. cc (h.0))

pub same_difficulty_iff :
    (a b : Difficulty) → (same_difficulty a b ≡ true) ↔ ((pow : PoWType) → a pow ≡ b pow)
unfolding same_difficulty
same_difficulty_iff a b =
    (λ h. each ((parts.0) h), λ h. (parts.1) (h cuckaroo, (h cuckatoo, (h random_x, h prog_pow))))
  where
    All_four : Type 0
    All_four =
        (a cuckaroo ≡ b cuckaroo)
        × ((a cuckatoo ≡ b cuckatoo) × ((a random_x ≡ b random_x) × (a prog_pow ≡ b prog_pow)))

    parts : (same_difficulty a b ≡ true) ↔ All_four
    parts =
        and_iff _ _
        then_iff both (same_entry_iff _ _) (
            and_iff _ _
            then_iff both (same_entry_iff _ _)
                (and_iff _ _ then_iff both (same_entry_iff _ _) (same_entry_iff _ _)))

    each : All_four → (pow : PoWType) → a pow ≡ b pow
    each h cuckaroo = h.0
    each h cuckatoo = h.1.0
    each h random_x = h.1.1.0
    each h prog_pow = h.1.1.1

pub scaling_iff :
    (proof : Proof) (s t : ℕ)
    → ((not (is_cuckoo_proof proof) || (s == t)) ≡ true)
      ↔ ((bits : ℕ) (nonces : List ℕ) → proof ≡ cuckoo_proof bits nonces → s ≡ t)
unfolding is_cuckoo_proof
scaling_iff (cuckoo_proof bits nonces) s t =
    (λ h _ _ _. (==_iff s t).0 h, λ h. (==_iff s t).1 (h bits nonces refl))
scaling_iff (md5_proof bits text) s t = (λ h _ _ e. cc e, λ h. refl)
scaling_iff (random_x_proof bytes) s t = (λ h _ _ e. cc e, λ h. refl)
scaling_iff (prog_pow_proof bytes) s t = (λ h _ _ e. cc e, λ h. refl)

module _ (ctx : BlockContext) (header prev : BlockHeader) where
  -- What the retarget of the height's era asks for: the first below the height of the fix, the second
  -- from there on.
  unfoldable pub AsksFor : HeaderInfo → Type 0
  AsksFor info =
      ((header.height < difficultyfix_height ctx.chain)
        × (next_difficulty ctx.chain header.height (pow_type prev.pow.proof)
              (ctx.difficulty_iter (hash_header ctx.packages ctx.chain prev))
            ≡ some info))
      ⊎ ((difficultyfix_height ctx.chain ≤ header.height)
          × (next_difficulty_era1 ctx.chain header.height (pow_type prev.pow.proof)
                (ctx.difficulty_iter (hash_header ctx.packages ctx.chain prev))
              ≡ some info))

  pub next_header_info_iff :
      (info : HeaderInfo) → (next_header_info ctx header prev ≡ some info) ↔ AsksFor info
  unfolding next_header_info AsksFor
  next_header_info_iff info =
      elim (Bool-cases (ltb header.height (difficultyfix_height ctx.chain))) [
        | inl lt ↦ rw lt (
          λ h. inl (ground (arith, lt), h),
          λ h. elim h [ inl a ↦ a.1 | inr b ↦ (let ge = b.0 in absurd (ground (arith, lt, ge))) ],
        )
        | inr ge ↦ rw ge (
          λ h. inr (ground (arith, ge), h),
          λ h. elim h [ inl a ↦ (let lt = a.0 in absurd (ground (arith, lt, ge))) | inr b ↦ b.1 ],
        )
      ]
