-- ===== src/Pow/Proof.antt =====
-- `Proof`, `BitVec` and `ProofOfWork` of core/src/pow/types.rs.
use epic.Base.{
  ℕ, zero, suc, ◌+◌, ◌-◌, ◌*◌, ◌/◌, ◌%◌, ◌^◌, Bool, true, false, not, ◌&&◌, ◌||◌, List, [], ◌∷◌,
  ◌++◌, Option, none, some, get_elem?, set, replicate, ltb, leb, ◌==◌, if◌then◌else◌, bit_and,
  bit_or,
}
use epic.Base.Results.{Result, ok, err}
use epic.Consensus.Emission.{ChainTypes, automated_testing, user_testing, floonet, mainnet}
use epic.Consensus.Retarget.{Difficulty, min_edge_bits}
use epic.Ser.{
  Packages, SerializationMode, full, hash, Reader, ◌>>=◌, pure, fail, write_uint, read_uint,
  write_bytes, read_bytes_len_prefix, read_fixed_bytes, corrupted_data, Error,
}
use epic.Pow.Maps.{write_map, read_map}

pub data Proof : Type 0 where
  cuckoo_proof : ℕ → List ℕ → Proof
  md5_proof : ℕ → List ℕ → Proof
  random_x_proof prog_pow_proof : List ℕ → Proof

abbrev pub second_pow_edge_bits : ℕ
second_pow_edge_bits = 31

unfoldable pub proofsize : ChainTypes → ℕ
proofsize automated_testing = 4
proofsize user_testing = 42
proofsize floonet = 42
proofsize mainnet = 42

-- Bit vectors are their bytes.
unfoldable pub bytes_len : ℕ → ℕ
bytes_len bits_len = (bits_len + 7) / 8

unfoldable pub new_bits : ℕ → List ℕ
new_bits bits_len = replicate (bytes_len bits_len) 0

-- Inside the vector; outside of it the source panics and a caller never is.
unfoldable pub set_bit_at : List ℕ → ℕ → List ℕ
set_bit_at bits pos = elim (get_elem? bits (pos / 8)) [
  | none ↦ bits
  | some b ↦ set bits (pos / 8) (bit_or b (2 ^ (pos % 8)))
]

unfoldable pub bit_at : List ℕ → ℕ → Bool
bit_at bits pos = elim (get_elem? bits (pos / 8)) [
  | none ↦ false
  | some b ↦ not (bit_and b (2 ^ (pos % 8)) == 0)
]

-- The loop over the bits of one nonce, from `bit` on.
unfoldable pub write_nonce : ℕ → ℕ → ℕ → ℕ → List ℕ → List ℕ
write_nonce zero bit start nonce bits = bits
write_nonce (suc left) bit start nonce bits =
    let next = if not (bit_and nonce (2 ^ bit) == 0) then set_bit_at bits (start + bit) else bits in
    write_nonce left (bit + 1) start nonce next

unfoldable pub write_nonces : ℕ → ℕ → List ℕ → List ℕ → List ℕ
write_nonces nonce_bits n [] bits = bits
write_nonces nonce_bits n (nonce ∷ nonces) bits =
    write_nonces nonce_bits (n + 1) nonces (write_nonce nonce_bits 0 (n * nonce_bits) nonce bits)

unfoldable pub read_nonce : ℕ → ℕ → ℕ → List ℕ → ℕ → ℕ
read_nonce zero bit start bits nonce = nonce
read_nonce (suc left) bit start bits nonce =
    let next = if bit_at bits (start + bit) then bit_or nonce (2 ^ bit) else nonce in
    read_nonce left (bit + 1) start bits next

unfoldable pub read_nonces : ℕ → ℕ → ℕ → List ℕ → List ℕ
read_nonces zero n nonce_bits bits = []
read_nonces (suc left) n nonce_bits bits =
    read_nonce nonce_bits 0 (n * nonce_bits) bits 0 ∷ read_nonces left (n + 1) nonce_bits bits

-- A bit is set among so many from a place on.
unfoldable pub any_bit : ℕ → ℕ → List ℕ → Bool
any_bit zero n bits = false
any_bit (suc left) n bits = if bit_at bits n then true else any_bit left (n + 1) bits

module _ (p : Packages) (chain : ChainTypes) where
  unfoldable pub write_proof : SerializationMode → Proof → List ℕ
  write_proof mode (cuckoo_proof edge_bits nonces) =
      write_uint p 1 0
      ++ (elim mode [ hash ↦ [] | full ↦ write_uint p 1 edge_bits ]
          ++ write_nonces edge_bits 0 nonces (new_bits (edge_bits * proofsize chain)))
  write_proof mode (md5_proof edge_bits proof) =
      write_uint p 1 1 ++ (write_uint p 1 edge_bits ++ write_bytes p proof)
  write_proof mode (random_x_proof h) = write_uint p 1 2 ++ h
  write_proof mode (prog_pow_proof mix) = write_uint p 1 3 ++ mix

  -- The nonces, with the bits of the last byte that are left over unset.
  unfoldable pub read_packed : ℕ → Reader Proof
  read_packed edge_bits =
      let bits_len = edge_bits * proofsize chain in
      read_fixed_bytes (bytes_len bits_len) >>= λ bits.
      if any_bit (bytes_len bits_len * 8 - bits_len) bits_len bits
      then fail corrupted_data
      else pure (cuckoo_proof edge_bits (read_nonces (proofsize chain) 0 edge_bits bits))

  unfoldable pub read_cuckoo : Reader Proof
  read_cuckoo = do
    edge_bits ← read_uint p 1
    if edge_bits == 0 || ltb 64 edge_bits then fail corrupted_data else read_packed edge_bits

-- What a reader that may panic gives: `none` for the panic.
abbrev pub Panicking : Type 0 → Type 0
Panicking A = List ℕ → Option (Result Error (A × List ℕ))

abbrev pub quiet : {A : Type 0} → Reader A → Panicking A
quiet read bytes = some (read bytes)

-- `unwrap()`
abbrev pub unwrap : {A : Type 0} → Reader A → Panicking A
unwrap read bytes = elim (read bytes) [ ok r ↦ some (ok r) | err e ↦ none ]

abbrev pub panic : {A : Type 0} → Panicking A
panic bytes = none

abbrev pub then_read : {A B : Type 0} → Panicking A → (A → Panicking B) → Panicking B
then_read m f bytes = elim (m bytes) [
  | none ↦ none
  | some (ok (a, rest)) ↦ f a rest
  | some (err e) ↦ some (err e)
]

-- The text of an MD5 proof stands as its bytes; `is_utf8` is the test of the standard library.
unfoldable pub read_md5 : Packages → (List ℕ → Bool) → Panicking Proof
read_md5 p is_utf8 = then_read (quiet (read_uint p 1)) (λ edge_bits.
    then_read (quiet (read_bytes_len_prefix p)) (λ proof_bytes.
      if is_utf8 proof_bytes then quiet (pure (md5_proof edge_bits proof_bytes)) else panic))

-- By the byte ahead of it.
unfoldable pub read_body_of : Packages → ChainTypes → (List ℕ → Bool) → ℕ → Panicking Proof
read_body_of p chain is_utf8 pow_type =
    if pow_type == 0
    then quiet (read_cuckoo p chain)
    else if pow_type == 1
    then read_md5 p is_utf8
    else if pow_type == 2
    then then_read (unwrap (read_fixed_bytes 32)) (λ h. quiet (pure (random_x_proof h)))
    else if pow_type == 3
    then then_read (unwrap (read_fixed_bytes 32)) (λ h. quiet (pure (prog_pow_proof h)))
    else panic

unfoldable pub read_proof : Packages → ChainTypes → (List ℕ → Bool) → Panicking Proof
read_proof p chain is_utf8 = then_read (quiet (read_uint p 1)) (read_body_of p chain is_utf8)

pub record ProofOfWork : Type 0 where
  pub total_difficulty : Difficulty
  pub secondary_scaling : ℕ
  pub nonce : ℕ
  pub proof : Proof
  pub seed : List ℕ

unfoldable pub write_pre_pow : Packages → ProofOfWork → List ℕ
write_pre_pow p pow = write_map p 8 pow.total_difficulty ++ write_uint p 4 pow.secondary_scaling

-- The method `write` of `ProofOfWork`, which comes before the trait's.
unfoldable pub write_pow : Packages → ChainTypes → SerializationMode → ProofOfWork → List ℕ
write_pow p chain mode pow =
    elim mode [ hash ↦ [] | full ↦ write_pre_pow p pow ++ write_uint p 8 pow.nonce ]
    ++ (write_proof p chain mode pow.proof ++ pow.seed)

-- The trait's.
unfoldable pub write_trait : Packages → ChainTypes → SerializationMode → ProofOfWork → List ℕ
write_trait p chain mode pow =
    elim mode [ hash ↦ [] | full ↦ write_pre_pow p pow ++ write_uint p 8 pow.nonce ]
    ++ write_proof p chain mode pow.proof

unfoldable pub read_pow : Packages → ChainTypes → (List ℕ → Bool) → Panicking ProofOfWork
read_pow p chain is_utf8 = then_read (quiet (read_map p 8)) (λ total_difficulty.
    then_read (quiet (read_uint p 4)) (λ secondary_scaling.
      then_read (quiet (read_uint p 8)) (λ nonce. then_read (read_proof p chain is_utf8) (λ proof.
        then_read (quiet (read_fixed_bytes 32)) (λ seed. quiet (
          pure (record {
            total_difficulty = total_difficulty;
            secondary_scaling = secondary_scaling;
            nonce = nonce;
            proof = proof;
            seed = seed;
          })))))))

unfoldable pub edge_bits : ProofOfWork → ℕ
edge_bits pow = elim pow.proof [
  | cuckoo_proof bits nonces ↦ bits
  | md5_proof bits text ↦ bits
  | random_x_proof h ↦ 16
  | prog_pow_proof h ↦ 16
]

unfoldable pub is_primary : ChainTypes → ProofOfWork → Bool
is_primary chain pow =
    let large =
      λ (bits : ℕ). not (bits == second_pow_edge_bits) && leb (min_edge_bits chain) bits in
    elim pow.proof [
      | cuckoo_proof bits nonces ↦ large bits
      | md5_proof bits text ↦ large bits
      | random_x_proof h ↦ true
      | prog_pow_proof h ↦ true
    ]

unfoldable pub is_secondary : ProofOfWork → Bool
is_secondary pow = elim pow.proof [
  | cuckoo_proof bits nonces ↦ bits == second_pow_edge_bits
  | md5_proof bits text ↦ bits == second_pow_edge_bits
  | random_x_proof h ↦ false
  | prog_pow_proof h ↦ false
]
