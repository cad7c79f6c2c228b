-- ===== src/Block/Tests.antt =====
-- A block on bytes and sums that compute, and the theorems at it.
use epic.Base.{
  ℕ, ◌+◌, ◌-◌, ◌%◌, ◌^◌, ◌<◌, ◌≡◌, refl, arith, true, List, [], ◌∷◌, ◌++◌, replicate, some,
}
use epic.Base.Signed.{pos, negsuc}
use epic.Base.Results.{ok}
use epic.Consensus.Emission.{automated_testing, mainnet}
use epic.Consensus.Emission as emission
use epic.Base.Bits.{bits_below}
use epic.Ser.{full, max_proof_size, write_uint, verify_sorted_and_unique}
use epic.Ser.Tests.{big_endian, big_endian-ReadsBack, put_be, get_be}
use epic.Committed as committed
use epic.Committed.{Curve}
use epic.Transaction.Kernel as kernel
use epic.Transaction.Kernel.{TxKernel}
use epic.Transaction.Outputs as outputs
use epic.Transaction.Outputs.{Output}
use epic.Transaction.Body as body
use epic.Transaction.Aggregate as aggregate
use epic.Pow.Maps.{number}
use epic.Pow.MapTrip.{Fits}
use epic.Pow.Proof.{ProofOfWork, random_x_proof}
use epic.Pow.ProofTrip.{IsHashOrText}
use epic.Block.Header.{BlockHeader, Outside, read_header, write_header}
use epic.Block.Header as header
use epic.Block.HeaderTrip.{read-write_header}
use epic.Block.HeaderTrip as trip
use epic.Block.Checks as checks
use epic.Block.Checks.{Block}
use epic.Block.BlockTrip as block_trip
use epic.Block.BlockTrip.{read-write_block}
use epic.Block.Valid.{IsValid, validate-IsValid}

abbrev outside : Outside
outside = record {
  min_date = negsuc 8_334_601_228_799;
  max_date = pos 8_210_298_326_400;
  is_utf8 = λ bytes. true;
}

abbrev pub work : ProofOfWork
work = record {
  total_difficulty = number 70000;
  secondary_scaling = 1;
  nonce = 77;
  proof = random_x_proof (replicate 32 9);
  seed = replicate 32 3;
}

abbrev pub first_header : BlockHeader
first_header = record {
  version = 6;
  height = 1;
  prev_hash = replicate 32 1;
  prev_root = replicate 32 2;
  timestamp = pos 1_567_000_000;
  output_root = replicate 32 3;
  range_proof_root = replicate 32 4;
  kernel_root = replicate 32 5;
  total_kernel_offset = replicate 32 6;
  output_mmr_size = 3;
  kernel_mmr_size = 1;
  pow = work;
  policy = 0;
  bottles = number 2;
}

number-Fits : (bound k : ℕ) → k < bound → Fits bound (number k)
unfolding number
number-Fits bound k lt pow n e = ground (arith, e, lt)

first_header-IsTyped : trip.IsTyped outside first_header
unfolding trip.IsWord header.lt_ℤ number IsHashOrText
first_header-IsTyped = record {
  version_current = refl;
  height_fits = omega arith;
  timestamp_word = omega arith;
  not_late = refl;
  not_early = refl;
  prev_hash_size = refl;
  prev_root_size = refl;
  output_root_size = refl;
  range_proof_root_size = refl;
  kernel_root_size = refl;
  offset_size = refl;
  output_mmr_size_fits = omega arith;
  kernel_mmr_size_fits = omega arith;
  pow_typed = record {
    difficulty_fits = number-Fits (256 ^ 8) 70000 (omega arith);
    scaling_fits = omega arith;
    nonce_fits = omega arith;
    proof_typed = refl;
    seed_size = refl;
  };
  policy_fits = omega arith;
  bottles_fit = number-Fits (256 ^ 4) 2 (omega arith);
}

read-write_header_example :
    read_header big_endian outside mainnet
      (write_header big_endian mainnet full first_header ++ 1 ∷ [])
    ≡ some (ok (first_header, 1 ∷ []))
read-write_header_example =
    read-write_header big_endian big_endian-ReadsBack outside mainnet first_header (1 ∷ [])
      first_header-IsTyped

-- Sums of first bytes, modulo 251, in the place of a curve.
unfoldable sum_heads : List (List ℕ) → ℕ
sum_heads [] = 0
sum_heads ([] ∷ xs) = sum_heads xs
sum_heads ((b ∷ bs) ∷ xs) = b + sum_heads xs

abbrev toy_curve : Curve
toy_curve = record {
  commit_sum =
      λ positive negative. ok ((sum_heads positive + 2510 - sum_heads negative) % 251 ∷ []);
  commit = λ value key. ok (value % 251 ∷ []);
  commit_value = λ value. ok (value % 251 ∷ []);
  commit_to_zero_value = [];
  blind_sum = λ positive negative. ok ((sum_heads positive + 2510 - sum_heads negative) % 251 ∷ []);
  secret_key_from_slice = λ bytes. ok bytes;
  to_pubkey = λ bytes. ok bytes;
  verify_single = λ sig msg key. true;
  verify_bullet_proof_multi = λ commits proofs. ok tt;
}

abbrev no_foundation : ℕ → Output
no_foundation height = record {
  features = outputs.coinbase;
  commit = [];
  proof = record { plen = 0; proof = [] };
}

-- The reward of height 1 is 54 modulo 251.
abbrev first_block : ℕ → Block
first_block head = record {
  header = first_header;
  body = record {
    inputs = [];
    outputs =
        record {
          features = outputs.coinbase;
          commit = head ∷ replicate 32 0;
          proof = record { plen = max_proof_size; proof = replicate max_proof_size 7 };
        }
        ∷ [];
    kernels =
        record {
          features = kernel.coinbase;
          fee = 0;
          lock_height = 0;
          excess = 5 ∷ replicate 32 0;
          excess_sig = replicate 64 1;
        }
        ∷ [];
  };
}

first_block-validate :
    checks.validate big_endian toy_curve automated_testing no_foundation
      (first_block 59)
      (replicate 32 6)
    ≡ ok (5 ∷ [])
unfolding checks.validate committed.unwrap_commit aggregate.validate_in_full body.validate_body
    body.verify_weight body.max_weight body.body_weight_as_block body.weight_as_block
    body.verify_sorted verify_sorted_and_unique body.verify_cut_through body.merge_hashes
    outputs.hash_output outputs.write_output outputs.write_features outputs.as_u8 kernel.hash
    kernel.write kernel.write_features kernel.as_u8 write_uint put_be get_be aggregate.verify_proofs
    aggregate.batch_verify_proofs aggregate.verify_kernels aggregate.verify_kernel
    aggregate.has_wrong_features kernel.is_coinbase kernel.is_height_locked kernel.msg_to_sign
    kernel.kernel_sig_msg checks.verify_kernel_lock_heights checks.verify_lock_heights
    checks.verify_coinbase checks.verify_foundation emission.is_foundation_height
    emission.foundation_height emission.reward_foundation_at_height emission.mul_trunc
    emission.rounds_up bits_below emission.block_total_reward_at_height emission.reward_at_height
    emission.reward emission.reward_foundation emission.add_reward_foundation checks.total_fees
    body.fee_from committed.retain outputs.is_coinbase_output outputs.is_coinbase
    committed.same_bytes checks.block_kernel_offset committed.verify_kernel_sums
    committed.sum_commitments committed.sum_commits committed.sum_kernel_excesses header.overage
    header.neg_or_zero sum_heads
first_block-validate = refl

validate-IsValid_example :
    IsValid big_endian toy_curve automated_testing no_foundation
      (first_block 59)
      (replicate 32 6)
      (5 ∷ [])
validate-IsValid_example =
    validate-IsValid big_endian toy_curve automated_testing no_foundation (first_block 59)
      (replicate 32 6) (5 ∷ []) first_block-validate

first_block-validate_body :
    body.validate_body big_endian mainnet body.as_block (first_block 59).body ≡ ok tt
unfolding body.validate_body body.verify_weight body.max_weight body.body_weight_as_block
    body.weight_as_block body.verify_sorted verify_sorted_and_unique body.verify_cut_through
    body.merge_hashes outputs.hash_output outputs.write_output outputs.write_features outputs.as_u8
    kernel.hash kernel.write kernel.write_features kernel.as_u8 write_uint put_be get_be
first_block-validate_body = refl

first_block-IsTyped : block_trip.IsTyped outside (first_block 59)
first_block-IsTyped = record {
  header_typed = first_header-IsTyped;
  inputs_typed = tt;
  outputs_typed = (record { commit_size = refl; plen_full = refl; proof_size = refl }, tt);
  kernels_typed = (
    record {
      fee_fits = omega arith;
      lock_height_fits = omega arith;
      excess_size = refl;
      excess_sig_size = refl;
    },
    tt,
  );
}

read-write_block_example :
    checks.read big_endian mainnet outside
      (checks.write big_endian mainnet full (first_block 59) ++ 1 ∷ [])
    ≡ some (ok (first_block 59, 1 ∷ []))
read-write_block_example =
    read-write_block big_endian outside mainnet (first_block 59) (1 ∷ []) big_endian-ReadsBack
      first_block-IsTyped first_block-validate_body
