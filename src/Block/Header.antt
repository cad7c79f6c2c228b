-- ===== src/Block/Header.antt =====
-- `HeaderEntry` and `BlockHeader` of core/src/core/block.rs.
use epic.Base.{
  ℕ, zero, suc, ◌+◌, ◌-◌, ◌%◌, ◌^◌, Bool, true, false, not, List, [], ◌++◌, ltb, ◌==◌, ◌||◌,
  if◌then◌else◌,
}
use epic.Base.Signed.{ℤ, pos, negsuc, to_i64, to_u64}
use epic.Consensus.Emission.{
  ChainTypes, reward_at_height, add_reward_foundation, total_overage_at_height,
}
use epic.Consensus.Retarget.{Difficulty}
use epic.Consensus.Policy.{Policy}
use epic.Ser.{
  Packages, SerializationMode, full, hash, Reader, ◌>>=◌, pure, fail, write_uint, read_uint,
  read_hash, read_blinding_factor, corrupted_data, invalid_block_version,
}
use epic.Pow.Maps.{write_map, read_map}
use epic.Pow.Proof.{ProofOfWork, Panicking, quiet, then_read, write_pow, write_pre_pow, read_pow}

pub record HeaderEntry : Type 0 where
  pub hash : List ℕ
  pub timestamp : ℕ
  pub total_difficulty : Difficulty
  pub secondary_scaling : ℕ
  pub is_secondary : Bool

module _ (p : Packages) where
  unfoldable pub write_entry : HeaderEntry → List ℕ
  write_entry e =
      e.hash
      ++ (write_uint p 8 e.timestamp
          ++ (write_map p 8 e.total_difficulty
              ++ (write_uint p 4 e.secondary_scaling
                  ++ write_uint p 1 (if e.is_secondary then 1 else 0))))

  unfoldable pub read_entry : Reader HeaderEntry
  read_entry = do
    h ← read_hash
    timestamp ← read_uint p 8
    total_difficulty ← read_map p 8
    secondary_scaling ← read_uint p 4
    secondary ← read_uint p 1
    pure (record {
      hash = h;
      timestamp = timestamp;
      total_difficulty = total_difficulty;
      secondary_scaling = secondary_scaling;
      is_secondary = not (secondary == 0);
    })

-- The timestamp stands in seconds.
pub record BlockHeader : Type 0 where
  pub version : ℕ
  pub height : ℕ
  pub prev_hash : List ℕ
  pub prev_root : List ℕ
  pub timestamp : ℤ
  pub output_root : List ℕ
  pub range_proof_root : List ℕ
  pub kernel_root : List ℕ
  pub total_kernel_offset : List ℕ
  pub output_mmr_size : ℕ
  pub kernel_mmr_size : ℕ
  pub pow : ProofOfWork
  pub policy : ℕ
  pub bottles : Policy

abbrev pub current_header_version : ℕ
current_header_version = 6

unfoldable pub valid_header_version : ℕ → ℕ → Bool
valid_header_version height version = version == current_header_version

unfoldable pub lt_ℤ : ℤ → ℤ → Bool
lt_ℤ (pos a) (pos b) = ltb a b
lt_ℤ (pos a) (negsuc b) = false
lt_ℤ (negsuc a) (pos b) = true
lt_ℤ (negsuc a) (negsuc b) = ltb b a

-- Functions of other packages: the first and the last second that chrono has a date for, and the
-- test of the standard library for UTF-8.
pub record Outside : Type 0 where
  pub min_date : ℤ
  pub max_date : ℤ
  pub is_utf8 : List ℕ → Bool

-- `write_i64` and `read_i64`
unfoldable pub write_i64 : Packages → ℤ → List ℕ
write_i64 p n = write_uint p 8 (to_u64 n)

unfoldable pub read_i64 : Packages → Reader ℤ
read_i64 p = do n ← read_uint p 8; pure (to_i64 n)

unfoldable pub write_pre : Packages → BlockHeader → List ℕ
write_pre p b =
    write_uint p 8 b.height
    ++ (write_i64 p b.timestamp
        ++ (b.prev_hash
            ++ (b.prev_root
                ++ (b.output_root
                    ++ (b.range_proof_root
                        ++ (b.kernel_root
                            ++ (b.total_kernel_offset
                                ++ (write_uint p 8 b.output_mmr_size
                                    ++ write_uint p 8 b.kernel_mmr_size))))))))

-- What `read` has of a header before its proof of work.
pub record Start : Type 0 where
  pub version : ℕ
  pub height : ℕ
  pub timestamp : ℤ
  pub prev_hash : List ℕ
  pub prev_root : List ℕ
  pub output_root : List ℕ
  pub range_proof_root : List ℕ
  pub kernel_root : List ℕ
  pub total_kernel_offset : List ℕ
  pub output_mmr_size : ℕ
  pub kernel_mmr_size : ℕ

unfoldable pub read_start : Packages → Reader Start
read_start p = do
  version ← read_uint p 2
  height ← read_uint p 8
  timestamp ← read_i64 p
  prev_hash ← read_hash
  prev_root ← read_hash
  output_root ← read_hash
  range_proof_root ← read_hash
  kernel_root ← read_hash
  total_kernel_offset ← read_blinding_factor
  output_mmr_size ← read_uint p 8
  kernel_mmr_size ← read_uint p 8
  pure (record {
    version = version;
    height = height;
    timestamp = timestamp;
    prev_hash = prev_hash;
    prev_root = prev_root;
    output_root = output_root;
    range_proof_root = range_proof_root;
    kernel_root = kernel_root;
    total_kernel_offset = total_kernel_offset;
    output_mmr_size = output_mmr_size;
    kernel_mmr_size = kernel_mmr_size;
  })

unfoldable pub header_of : Start → ProofOfWork → ℕ → Policy → BlockHeader
header_of s pow policy bottles = record {
  version = s.version;
  height = s.height;
  prev_hash = s.prev_hash;
  prev_root = s.prev_root;
  timestamp = s.timestamp;
  output_root = s.output_root;
  range_proof_root = s.range_proof_root;
  kernel_root = s.kernel_root;
  total_kernel_offset = s.total_kernel_offset;
  output_mmr_size = s.output_mmr_size;
  kernel_mmr_size = s.kernel_mmr_size;
  pow = pow;
  policy = policy;
  bottles = bottles;
}

-- The checks on the way out.
unfoldable pub check_header : Outside → BlockHeader → Reader BlockHeader
check_header o b =
    if lt_ℤ o.max_date b.timestamp || lt_ℤ b.timestamp o.min_date
    then fail corrupted_data
    else if not (valid_header_version b.height b.version)
    then fail invalid_block_version
    else pure b

module _ (p : Packages) (chain : ChainTypes) where
  unfoldable pub write_header : SerializationMode → BlockHeader → List ℕ
  write_header mode b =
      write_uint p 2 b.version
      ++ (elim mode [ hash ↦ [] | full ↦ write_pre p b ]
          ++ (write_pow p chain mode b.pow ++ (write_uint p 1 b.policy ++ write_map p 4 b.bottles)))

  unfoldable pub hash_header : BlockHeader → ℕ
  hash_header b = p.digest (write_header hash b)

  unfoldable pub pre_pow : BlockHeader → List ℕ
  pre_pow b =
      write_uint p 2 b.version
      ++ (write_pre p b ++ (write_pre_pow p b.pow ++ write_uint p 8 b.pow.nonce))

module _ (p : Packages) (o : Outside) (chain : ChainTypes) where
  unfoldable pub read_header : Panicking BlockHeader
  read_header = then_read (quiet (read_start p)) (λ s.
      then_read (read_pow p chain o.is_utf8) (λ pow. then_read (quiet (read_uint p 1)) (λ policy.
        then_read (quiet (read_map p 4))
          (λ bottles. quiet (check_header o (header_of s pow policy bottles))))))

-- `checked_neg().unwrap_or(0)`
unfoldable pub neg_or_zero : ℤ → ℤ
neg_or_zero (pos zero) = pos zero
neg_or_zero (pos (suc n)) = negsuc n
neg_or_zero (negsuc n) = if n == 2 ^ 63 - 1 then pos 0 else pos (suc n)

unfoldable pub overage : ChainTypes → BlockHeader → ℤ
overage chain b =
    neg_or_zero
      (to_i64 ((reward_at_height b.height + add_reward_foundation chain b.height) % 2 ^ 64))

unfoldable pub total_overage : ChainTypes → BlockHeader → Bool → ℤ
total_overage chain b genesis_had_reward =
    neg_or_zero (pos (total_overage_at_height chain b.height genesis_had_reward))
