-- ===== src/Chain/Tests.antt =====
-- A context that answers from two headers, and the theorem at it.
use epic.Base.{◌≡◌, refl, true, false, [], ◌∷◌, replicate}
use epic.Base.Signed.{pos}
use epic.Base.Results.{ok}
use epic.Consensus.Emission.{mainnet}
use epic.Consensus.Retarget.{random_x}
use epic.Consensus.Policy.{default_allowed, default_policies, get_bottles_default}
use epic.Ser.Tests.{big_endian}
use epic.Pow.Maps.{number}
use epic.Block.Header.{BlockHeader}
use epic.Block.Tests.{first_header, work}
use epic.Chain.Difficulty.{rx_current_seed_height}
use epic.Chain.Headers.{BlockContext}

abbrev genesis : BlockHeader
genesis = record first_header {
  height = 0;
  timestamp = pos 1_566_999_900;
  pow = record work { total_difficulty = number 60000 };
}

abbrev context : BlockContext
context = record {
  packages = big_endian;
  chain = mainnet;
  now = pos 1_567_000_100;
  skip_pow = false;
  pow_verifier = λ header. true;
  get_progpow_value = λ header height nonce. replicate 32 1;
  choose_algo = λ policy bottles. random_x;
  allowed_policies = default_allowed;
  policies = default_policies;
  head =
      ok (record {
        height = 0;
        last_block_h = 0;
        prev_block_h = 0;
        total_difficulty = number 60000;
      });
  header_head =
      ok (record {
        height = 0;
        last_block_h = 0;
        prev_block_h = 0;
        total_difficulty = number 60000;
      });
  block_exists = λ h. ok false;
  orphans = λ h. false;
  get_previous_header = λ header. ok genesis;
  get_block_header = λ seed. ok genesis;
  difficulty_iter = λ h.
      record {
        timestamp = 1_566_999_900;
        difficulty = number 10000;
        secondary_scaling = 1;
        is_secondary = false;
        prev_timespan = 60;
      }
      ∷ [];
  bottle_iter = λ h policy. get_bottles_default ∷ [];
}

seed_height_test : rx_current_seed_height 2061 ≡ 2000
unfolding rx_current_seed_height
seed_height_test = refl
