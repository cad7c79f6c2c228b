-- ===== src/Chain/Headers.antt =====
-- The checks of a header in chain/src/pipe.rs.
use epic.Base.{
  ℕ, ◌+◌, ◌-◌, ◌*◌, Bool, true, false, not, ◌&&◌, ◌||◌, List, [], ◌∷◌, Option, none, some,
  get_elem?, ltb, leb, ◌==◌, if◌then◌else◌,
}
use epic.Base.Bits.{u64}
use epic.Base.Signed.{ℤ, pos, ◌+ℤ◌}
use epic.Base.Results.{Result, ok, err, map_err}
use epic.Consensus.Emission.{
  ChainTypes, automated_testing, user_testing, floonet, mainnet, block_time_sec,
  difficultyfix_height,
}
use epic.Consensus.Retarget.{
  PoWType, cuckaroo, cuckatoo, random_x, prog_pow, same_pow, Difficulty, to_num, HeaderInfo,
  next_difficulty, next_difficulty_era1,
}
use epic.Consensus.Policy.{AllowPolicy, is_allowed_policy, Policy, get_bottles_default}
use epic.Ser.{Packages}
use epic.Pow.Maps.{sub}
use epic.Pow.Proof.{Proof, cuckoo_proof, md5_proof, random_x_proof, prog_pow_proof}
use epic.Block.Header.{BlockHeader, valid_header_version, lt_ℤ, hash_header, pre_pow}
use epic.Pow.Proof.{is_primary, is_secondary}
use epic.Block.Checks as block
use epic.Chain.Errors.{
  ErrorKind, orphan, difficulty_too_low, wrong_total_difficulty, low_edgebits, invalid_scaling,
  invalid_pow, invalid_block_time, invalid_block_height, invalid_seed, policy_is_not_allowed,
  invalid_sort_algo, old_block, there_is_not_policy, unfit, invalid_block_proof,
  invalid_block_version, store_err, StoreError, not_found, lmdb_err, ser_error, Checked, ◌>>=◌,
  ◌>>◌, require, unwrap,
}
use epic.Chain.Difficulty.{pow_type, rx_current_seed_height, to_difficulty}

-- The tip of a fork.
pub record Tip : Type 0 where
  pub height : ℕ
  pub last_block_h : ℕ
  pub prev_block_h : ℕ
  pub total_difficulty : Difficulty

-- The `BlockContext`, with what its batch of the database answers, the clock in seconds, and the
-- configuration of policies, which is global in the source. The cursors are the headers, and the
-- bottles under a policy, back from a hash.
pub record BlockContext : Type 0 where
  pub packages : Packages
  pub chain : ChainTypes
  pub now : ℤ
  pub skip_pow : Bool
  pub pow_verifier : BlockHeader → Bool
  pub get_progpow_value : List ℕ → ℕ → ℕ → List ℕ
  pub choose_algo : Policy → Policy → PoWType
  pub allowed_policies : List AllowPolicy
  pub policies : List Policy
  pub head : Result StoreError Tip
  pub header_head : Result StoreError Tip
  pub block_exists : ℕ → Result StoreError Bool
  pub orphans : ℕ → Bool
  pub get_previous_header : BlockHeader → Result StoreError BlockHeader
  pub get_block_header : List ℕ → Result StoreError BlockHeader
  pub difficulty_iter : ℕ → List HeaderInfo
  pub bottle_iter : ℕ → ℕ → List Policy

unfoldable pub is_automated_testing_mode : ChainTypes → Bool
is_automated_testing_mode automated_testing = true
is_automated_testing_mode user_testing = false
is_automated_testing_mode floonet = false
is_automated_testing_mode mainnet = false

-- The known bad headers, by their hashes as numbers.
abbrev pub bad_hashes : List ℕ
bad_hashes =
    59728038853776599646042075133133295930850789411534191376587830086036966874786
    ∷ 76687764390469972324518548536842193366623982679296071538451672280269688034727 ∷ []

unfoldable pub contains : List ℕ → ℕ → Bool
contains [] h = false
contains (x ∷ xs) h = (x == h) || contains xs h

-- `==` of maps with the same keys in play.
unfoldable pub same_entry : Option ℕ → Option ℕ → Bool
same_entry none none = true
same_entry none (some w) = false
same_entry (some v) none = false
same_entry (some v) (some w) = v == w

unfoldable pub same_difficulty : Difficulty → Difficulty → Bool
same_difficulty a b =
    same_entry (a cuckaroo) (b cuckaroo)
    && (same_entry (a cuckatoo) (b cuckatoo)
        && (same_entry (a random_x) (b random_x) && same_entry (a prog_pow) (b prog_pow)))

-- `consensus::next_policy`, the algorithm of it.
unfoldable pub next_algo : (Policy → Policy → PoWType) → Policy → List Policy → PoWType
next_algo choose_algo policy [] = choose_algo policy get_bottles_default
next_algo choose_algo policy (bottles ∷ cursor) = choose_algo policy bottles

unfoldable pub is_correct_algo : Proof → PoWType → Bool
is_correct_algo (cuckoo_proof edge_bits nonces) algo =
    if edge_bits == 29 then same_pow algo cuckaroo else same_pow algo cuckatoo
is_correct_algo (random_x_proof bytes) algo = same_pow algo random_x
is_correct_algo (prog_pow_proof bytes) algo = same_pow algo prog_pow
is_correct_algo (md5_proof edge_bits proof) algo = false

unfoldable pub is_cuckoo_proof : Proof → Bool
is_cuckoo_proof (cuckoo_proof edge_bits nonces) = true
is_cuckoo_proof (md5_proof edge_bits proof) = false
is_cuckoo_proof (random_x_proof bytes) = false
is_cuckoo_proof (prog_pow_proof bytes) = false

-- The two errors of `prev_header_store`.
unfoldable pub prev_error : StoreError → ErrorKind
prev_error not_found = orphan
prev_error (lmdb_err e) = store_err (lmdb_err e)
prev_error ser_error = store_err ser_error

module _ (ctx : BlockContext) where
  unfoldable pub prev_header_store : BlockHeader → Result ErrorKind BlockHeader
  prev_header_store header = map_err prev_error (ctx.get_previous_header header)

  unfoldable pub check_bad_header : BlockHeader → Checked (Unit {0})
  check_bad_header header =
      require (not (contains bad_hashes (hash_header ctx.packages ctx.chain header)))
        (invalid_block_proof block.other)

  -- The first checks, which read no store.
  unfoldable pub check_alone : BlockHeader → Checked (Unit {0})
  check_alone header =
      require (valid_header_version header.height header.version)
        (invalid_block_version header.version)
      >> require
          (not (lt_ℤ (ctx.now +ℤ pos (6 * block_time_sec)) header.timestamp)
            || is_automated_testing_mode ctx.chain)
          invalid_block_time
      >> check_bad_header header

  unfoldable pub check_pow : BlockHeader → Checked (Unit {0})
  check_pow header =
      if ctx.skip_pow
      then some (ok tt)
      else (require (is_primary ctx.chain header.pow || is_secondary header.pow) low_edgebits
          >> require (ctx.pow_verifier header) invalid_pow)

  unfoldable pub check_seed : BlockHeader → Checked (Unit {0})
  check_seed header =
      some (map_err (λ e. invalid_seed) (ctx.get_block_header header.pow.seed)) >>= λ header_seed.
      require (header_seed.height == rx_current_seed_height header.height) invalid_seed

  unfoldable pub check_policy : BlockHeader → BlockHeader → Checked (Unit {0})
  check_policy header prev =
      unwrap (is_allowed_policy ctx.allowed_policies header.height header.policy) >>= λ allowed.
      (require allowed policy_is_not_allowed >> (elim (get_elem? ctx.policies header.policy) [
        | none ↦ some (err there_is_not_policy)
        | some policy ↦
            require
              (is_correct_algo header.pow.proof (
                next_algo ctx.choose_algo policy
                  (ctx.bottle_iter (hash_header ctx.packages ctx.chain prev) header.policy)))
              invalid_sort_algo
      ]))

  unfoldable pub check_after : BlockHeader → BlockHeader → Checked (Unit {0})
  check_after header prev =
      require (header.height == u64 (prev.height + 1)) invalid_block_height
      >> require (lt_ℤ prev.timestamp header.timestamp || is_automated_testing_mode ctx.chain)
          invalid_block_time

  -- The difficulty and the scaling that the network asks for after a header.
  unfoldable pub next_header_info : BlockHeader → BlockHeader → Option HeaderInfo
  next_header_info header prev =
      let diff_iter = ctx.difficulty_iter (hash_header ctx.packages ctx.chain prev) in
      if ltb header.height (difficultyfix_height ctx.chain)
      then next_difficulty ctx.chain header.height (pow_type prev.pow.proof) diff_iter
      else next_difficulty_era1 ctx.chain header.height (pow_type prev.pow.proof) diff_iter

  unfoldable pub check_difficulty : BlockHeader → BlockHeader → Checked (Unit {0})
  check_difficulty header prev =
      let target_difficulty = sub header.pow.total_difficulty prev.pow.total_difficulty in
      let algo = pow_type header.pow.proof in
      if ctx.skip_pow
      then some (ok tt)
      else (unwrap (
            to_difficulty ctx.packages ctx.chain ctx.get_progpow_value header.pow
              (pre_pow ctx.packages ctx.chain header) header.height header.pow.nonce)
          >>= λ diff.
              (require (leb (to_num target_difficulty algo) (to_num diff algo)) difficulty_too_low
                >> (unwrap (next_header_info header prev) >>= λ info.
                    (require (same_difficulty target_difficulty info.difficulty)
                        wrong_total_difficulty
                      >> require
                          (not (is_cuckoo_proof header.pow.proof)
                            || (header.pow.secondary_scaling == info.secondary_scaling))
                          invalid_scaling))))

  unfoldable pub validate_header : BlockHeader → Checked (Unit {0})
  validate_header header =
      check_alone header
      >> (check_pow header
          >> (some (prev_header_store header) >>= λ prev.
              (check_seed header
                >> (check_policy header prev
                    >> (check_after header prev >> check_difficulty header prev)))))

  -- The hash is that of the tip or of the one before.
  unfoldable pub is_known : Tip → ℕ → Bool
  is_known tip h = (h == tip.last_block_h) || (h == tip.prev_block_h)

  unfoldable pub from_store : {A : Type 0} → Result StoreError A → Checked A
  from_store r = some (map_err store_err r)

  unfoldable pub check_header_known : BlockHeader → Checked (Unit {0})
  check_header_known header = from_store ctx.header_head >>= λ tip.
      require (not (is_known tip (hash_header ctx.packages ctx.chain header))) unfit

  unfoldable pub process_block_header : BlockHeader → Checked (Unit {0})
  process_block_header header = check_header_known header >> validate_header header

  unfoldable pub check_known_head : BlockHeader → Checked (Unit {0})
  check_known_head header = from_store ctx.head >>= λ tip.
      require (not (is_known tip (hash_header ctx.packages ctx.chain header))) unfit

  unfoldable pub check_known_orphans : BlockHeader → Checked (Unit {0})
  check_known_orphans header =
      require (not (ctx.orphans (hash_header ctx.packages ctx.chain header))) unfit

  unfoldable pub check_known_store : BlockHeader → Checked (Unit {0})
  check_known_store header =
      from_store (ctx.block_exists (hash_header ctx.packages ctx.chain header)) >>= λ exists.
      if exists
      then (from_store ctx.head >>= λ tip.
          (require (leb (tip.height - 50) header.height) old_block >> some (err unfit)))
      else some (ok tt)

  unfoldable pub check_known : BlockHeader → Checked (Unit {0})
  check_known header =
      check_known_head header >> (check_known_orphans header >> check_known_store header)
