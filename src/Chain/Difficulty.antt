-- ===== src/Chain/Difficulty.antt =====
-- The difficulty that a proof of work reaches, of core/src/pow/types.rs, and the seed heights of
-- core/src/pow/randomx.rs.
use epic.Base.{
  ℕ, ◌+◌, ◌-◌, ◌*◌, ◌/◌, ◌%◌, ◌^◌, min, max, ◌||◌, List, Option, none, some, leb, ◌==◌,
  if◌then◌else◌,
}
use epic.Consensus.Emission.{ChainTypes}
use epic.Consensus.Retarget.{
  PoWType, cuckaroo, cuckatoo, random_x, prog_pow, Difficulty, graph_weight,
}
use epic.Ser.{Packages, hash}
use epic.Pow.Maps.{number, from_num}
use epic.Pow.Proof.{
  Proof, cuckoo_proof, md5_proof, random_x_proof, prog_pow_proof, second_pow_edge_bits, ProofOfWork,
  write_proof,
}

-- `From<&Proof> for PoWType`
unfoldable pub pow_type : Proof → PoWType
pow_type (cuckoo_proof edge_bits nonces) =
    if edge_bits == 19 || edge_bits == 31 then cuckatoo else cuckaroo
pow_type (md5_proof edge_bits nonces) = random_x
pow_type (random_x_proof bytes) = random_x
pow_type (prog_pow_proof bytes) = prog_pow

abbrev pub seedhash_epoch_blocks : ℕ
seedhash_epoch_blocks = 1000

abbrev pub seedhash_epoch_lag : ℕ
seedhash_epoch_lag = 60

unfoldable pub rx_current_seed_height : ℕ → ℕ
rx_current_seed_height height =
    if leb height (seedhash_epoch_lag + seedhash_epoch_blocks)
    then 0
    else if leb (height % seedhash_epoch_blocks) seedhash_epoch_lag
    then height - height % seedhash_epoch_blocks - seedhash_epoch_blocks
    else height - height % seedhash_epoch_blocks

-- The greatest number of 256 bits by the hash; `none` is the panic of a division by zero.
unfoldable pub from_proof_hash : Packages → List ℕ → Option Difficulty
from_proof_hash p bytes =
    let d = p.get_uint bytes in if d == 0 then none else some (number ((2 ^ 256 - 1) / d % 2 ^ 64))

module _ (p : Packages) (chain : ChainTypes) where
  -- The first 64 bits of the hash of a proof.
  unfoldable pub scaled_difficulty : Proof → ℕ → ℕ
  scaled_difficulty proof scale =
      min (scale * 2 ^ 64 / max 1 (p.digest (write_proof p chain hash proof) / 2 ^ 192))
        (2 ^ 64 - 1)

  -- Of Cuckoo's proofs alone.
  unfoldable pub cuckoo_difficulty : ProofOfWork → ℕ → ℕ → Difficulty
  cuckoo_difficulty pow height bits =
      if bits == second_pow_edge_bits
      then from_num (scaled_difficulty pow.proof pow.secondary_scaling)
      else from_num (scaled_difficulty pow.proof (graph_weight chain height bits))

  -- `get_progpow_value` calls the package progpow.
  unfoldable pub to_difficulty :
      (List ℕ → ℕ → ℕ → List ℕ) → ProofOfWork → List ℕ → ℕ → ℕ → Option Difficulty
  to_difficulty get_progpow_value pow header height nonce = elim (pow.proof) [
    | cuckoo_proof bits nonces ↦ some (cuckoo_difficulty pow height bits)
    | md5_proof bits nonces ↦ some (cuckoo_difficulty pow height bits)
    | random_x_proof bytes ↦ from_proof_hash p bytes
    | prog_pow_proof bytes ↦ from_proof_hash p (get_progpow_value header height nonce)
  ]
