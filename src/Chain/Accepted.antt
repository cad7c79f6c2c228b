-- ===== src/Chain/Accepted.antt =====
-- What a header that chain/src/pipe.rs accepts has.
use epic.Base.{List, ℕ, ◌+◌, ◌-◌, ◌*◌, ◌/◌, ◌≤◌, ◌≢◌, ◌≡◌, ◌⊎◌, true, false, some, get_elem?}
use epic.Base.Bits.{u64}
use epic.Base.Signed.{pos, ◌+ℤ◌}
use epic.Base.Results.{ok}
use epic.Consensus.Emission.{automated_testing, block_time_sec}
use epic.Consensus.Retarget.{PoWType, Difficulty, to_num, HeaderInfo}
use epic.Consensus.Policy.{is_allowed_policy, Policy}
use epic.Pow.Proof.{cuckoo_proof}
use epic.Base.Predicates.{All}
use epic.Pow.Maps.{sub}
use epic.Block.Header.{BlockHeader, lt_ℤ, hash_header, pre_pow}
use epic.Chain.Conditions.{IsLarge, IsNewest, IsOf, AsksFor}
use epic.Chain.Difficulty.{pow_type, to_difficulty}
use epic.Chain.Headers.{BlockContext, bad_hashes}

module _ (ctx : BlockContext) (header : BlockHeader) where
  -- The version, the clock and the bad headers.
  abbrev pub StandsAlone : Type 0
  StandsAlone =
      ((header.version ≡ 6)
        × ((lt_ℤ (ctx.now +ℤ pos (6 * block_time_sec)) header.timestamp ≡ false)
            ⊎ (ctx.chain ≡ automated_testing)))
      × All (λ bad. hash_header ctx.packages ctx.chain header ≢ bad) bad_hashes

  abbrev pub HasPow : Type 0
  HasPow =
      (ctx.skip_pow ≡ true)
      ⊎ (IsLarge ctx.chain header.pow.proof × (ctx.pow_verifier header ≡ true))

  abbrev pub HasSeed : Type 0
  HasSeed =
      (seed : BlockHeader) × (ctx.get_block_header header.pow.seed ≡ ok seed)
      × (seed.height ≡ (header.height - 61) / 1000 * 1000)

  module _ (prev : BlockHeader) where
    abbrev pub HasPolicy : Type 0
    HasPolicy =
        (is_allowed_policy ctx.allowed_policies header.height header.policy ≡ some true)
        × ((policy : Policy) × (get_elem? ctx.policies header.policy ≡ some policy)
            × ((bottles : Policy) × IsNewest bottles
                  (ctx.bottle_iter (hash_header ctx.packages ctx.chain prev) header.policy)
                × IsOf (ctx.choose_algo policy bottles) header.pow.proof))

    abbrev pub Follows : Type 0
    Follows =
        (header.height ≡ u64 (prev.height + 1))
        × ((lt_ℤ prev.timestamp header.timestamp ≡ true) ⊎ (ctx.chain ≡ automated_testing))

    -- The difficulty that was reached is at least the increase of the total, and the increase is what
    -- the network asks for.
    abbrev pub HasDifficulty : Type 0
    HasDifficulty =
        (ctx.skip_pow ≡ true)
        ⊎ ((diff : Difficulty) × (to_difficulty ctx.packages ctx.chain ctx.get_progpow_value
                header.pow (pre_pow ctx.packages ctx.chain header) header.height header.pow.nonce
              ≡ some diff)
            × ((to_num (sub header.pow.total_difficulty prev.pow.total_difficulty)
                    (pow_type header.pow.proof)
                  ≤ to_num diff (pow_type header.pow.proof))
                × ((info : HeaderInfo) × AsksFor ctx header prev info
                    × (((pow : PoWType)
                          → sub header.pow.total_difficulty prev.pow.total_difficulty pow
                            ≡ info.difficulty pow)
                        × ((bits : ℕ) (nonces : List ℕ)
                            → header.pow.proof ≡ cuckoo_proof bits nonces
                            → header.pow.secondary_scaling ≡ info.secondary_scaling)))))
