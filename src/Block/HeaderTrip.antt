-- ===== src/Block/HeaderTrip.antt =====
-- A header is read back from its bytes.
use epic.Base.{ℕ, ◌<◌, ◌≡◌, ◌^◌, ap, sym, ◌∙◌, arith, false, List, ◌++◌, some, length}
use mathlib.Core.List.{append_assoc}
use epic.Base.Signed.{ℤ, pos, negsuc, to_i64, to_u64}
use epic.Base.Results.{ok}
use epic.Consensus.Emission.{ChainTypes}
use epic.Ser.{Packages, ReadsBack, full, write_uint, read_uint, read_hash, read_blinding_factor}
use epic.Ser.Codec.{read_uint-write_uint, read_fixed_bytes-append, bind-append, bind-last}
use epic.Pow.Maps.{write_map, read_map}
use epic.Pow.MapTrip.{Fits, read_map-write_map}
use epic.Pow.Proof.{quiet, write_pow, read_pow}
use epic.Pow.ProofTrip as proof
use epic.Pow.ProofTrip.{then_read-append, then_read-last, read_pow-write_pow}
use epic.Block.Header.{
  BlockHeader, Start, Outside, write_i64, read_i64, write_pre, read_start, header_of, check_header,
  valid_header_version, lt_ℤ, write_header, read_header,
}

-- The numbers of an `i64`.
unfoldable pub IsWord : ℤ → Type 0
IsWord (pos n) = n < 2 ^ 63
IsWord (negsuc n) = n < 2 ^ 63

to_i64-to_u64 : (n : ℤ) → IsWord n → (to_i64 (to_u64 n) ≡ n) × (to_u64 n < 256 ^ 8)
unfolding IsWord
to_i64-to_u64 (pos n) fits = ground (arith, fits)
to_i64-to_u64 (negsuc n) fits = ground (arith, fits)

-- What the types and the checks on the way out say of a header.
pub record IsTyped (o : Outside) (b : BlockHeader) : Type 0 where
  pub version_current : b.version ≡ 6
  pub height_fits : b.height < 256 ^ 8
  pub timestamp_word : IsWord b.timestamp
  pub not_late : lt_ℤ o.max_date b.timestamp ≡ false
  pub not_early : lt_ℤ b.timestamp o.min_date ≡ false
  pub prev_hash_size : length b.prev_hash ≡ 32
  pub prev_root_size : length b.prev_root ≡ 32
  pub output_root_size : length b.output_root ≡ 32
  pub range_proof_root_size : length b.range_proof_root ≡ 32
  pub kernel_root_size : length b.kernel_root ≡ 32
  pub offset_size : length b.total_kernel_offset ≡ 32
  pub output_mmr_size_fits : b.output_mmr_size < 256 ^ 8
  pub kernel_mmr_size_fits : b.kernel_mmr_size < 256 ^ 8
  pub pow_typed : proof.IsTyped o.is_utf8 b.pow
  pub policy_fits : b.policy < 256
  pub bottles_fit : Fits (256 ^ 4) b.bottles

unfoldable start_of : BlockHeader → Start
start_of b = record {
  version = b.version;
  height = b.height;
  timestamp = b.timestamp;
  prev_hash = b.prev_hash;
  prev_root = b.prev_root;
  output_root = b.output_root;
  range_proof_root = b.range_proof_root;
  kernel_root = b.kernel_root;
  total_kernel_offset = b.total_kernel_offset;
  output_mmr_size = b.output_mmr_size;
  kernel_mmr_size = b.kernel_mmr_size;
}

module _ (p : Packages) (laws : ReadsBack p) where
  read_hash-append : (h rest : List ℕ) → length h ≡ 32 → read_hash (h ++ rest) ≡ ok (h, rest)
  unfolding read_hash
  read_hash-append h rest size = read_fixed_bytes-append 32 h rest (omega arith) size

  read_i64-write_i64 :
      (n : ℤ) (rest : List ℕ) → IsWord n → read_i64 p (write_i64 p n ++ rest) ≡ ok (n, rest)
  unfolding read_i64 write_i64
  read_i64-write_i64 n rest word =
      bind-last (read_uint p 8) _ (write_uint p 8 (to_u64 n)) rest (to_u64 n)
        (read_uint-write_uint p laws 8 (to_u64 n) rest (to_i64-to_u64 n word).1)
      ∙ ap (λ (m : ℤ). ok (m, rest)) (to_i64-to_u64 n word).0

  read_start-write :
      (o : Outside) (b : BlockHeader) (rest : List ℕ)
      → IsTyped o b
      → read_start p ((write_uint p 2 b.version ++ write_pre p b) ++ rest) ≡ ok (start_of b, rest)
  unfolding read_start write_pre start_of read_blinding_factor
  read_start-write o b rest typed =
      bind-append (read_uint p 2) _ (write_uint p 2 b.version) _ rest b.version
        (read_uint-write_uint p laws 2 b.version _ (omega (arith, typed.version_current)))
      ∙ bind-append (read_uint p 8) _ (write_uint p 8 b.height) _ rest b.height
          (read_uint-write_uint p laws 8 b.height _ typed.height_fits)
      ∙ bind-append (read_i64 p) _ (write_i64 p b.timestamp) _ rest b.timestamp
          (read_i64-write_i64 b.timestamp _ typed.timestamp_word)
      ∙ bind-append read_hash _ b.prev_hash _ rest b.prev_hash
          (read_hash-append b.prev_hash _ typed.prev_hash_size)
      ∙ bind-append read_hash _ b.prev_root _ rest b.prev_root
          (read_hash-append b.prev_root _ typed.prev_root_size)
      ∙ bind-append read_hash _ b.output_root _ rest b.output_root
          (read_hash-append b.output_root _ typed.output_root_size)
      ∙ bind-append read_hash _ b.range_proof_root _ rest b.range_proof_root
          (read_hash-append b.range_proof_root _ typed.range_proof_root_size)
      ∙ bind-append read_hash _ b.kernel_root _ rest b.kernel_root
          (read_hash-append b.kernel_root _ typed.kernel_root_size)
      ∙ bind-append read_blinding_factor _ b.total_kernel_offset _ rest b.total_kernel_offset
          (read_fixed_bytes-append 32 b.total_kernel_offset _ (omega arith) typed.offset_size)
      ∙ bind-append (read_uint p 8) _ (write_uint p 8 b.output_mmr_size) _ rest b.output_mmr_size
          (read_uint-write_uint p laws 8 b.output_mmr_size _ typed.output_mmr_size_fits)
      ∙ bind-last (read_uint p 8) _ (write_uint p 8 b.kernel_mmr_size) rest b.kernel_mmr_size
          (read_uint-write_uint p laws 8 b.kernel_mmr_size rest typed.kernel_mmr_size_fits)

  check_header-typed :
      (o : Outside) (b : BlockHeader) (rest : List ℕ)
      → IsTyped o b
      → check_header o b rest ≡ ok (b, rest)
  unfolding check_header valid_header_version
  check_header-typed o b rest typed =
      ground (arith, typed.not_late, typed.not_early, typed.version_current)

  -- If the byte order reads back what it writes, a typed header of the current version, with a date
  -- that can be told and a proof of work that is not of Cuckoo, is read back from its bytes, and what
  -- follows them is left.
  pub read-write_header :
      (o : Outside) (chain : ChainTypes) (b : BlockHeader) (rest : List ℕ)
      → IsTyped o b
      → read_header p o chain (write_header p chain full b ++ rest) ≡ some (ok (b, rest))
  unfolding read_header write_header header_of start_of
  read-write_header o chain b rest typed =
      let start = write_uint p 2 b.version in
      let work = write_pow p chain full b.pow in
      let policy = write_uint p 1 b.policy in
      let bottles = write_map p 4 b.bottles in
      let flat : (start ++ write_pre p b) ++ (work ++ (policy ++ bottles))
          ≡ start ++ (write_pre p b ++ (work ++ (policy ++ bottles))) =
        append_assoc start (write_pre p b) (work ++ (policy ++ bottles)) in
      ap (λ (bs : List ℕ). read_header p o chain (bs ++ rest)) (sym flat)
      ∙ then_read-append (quiet (read_start p)) _ (start ++ write_pre p b) _ rest (start_of b)
          (ap some (read_start-write o b _ typed))
      ∙ then_read-append (read_pow p chain o.is_utf8) _ work _ rest b.pow
          (read_pow-write_pow p laws chain o.is_utf8 b.pow _ typed.pow_typed)
      ∙ then_read-append (quiet (read_uint p 1)) _ policy _ rest b.policy
          (ap some (read_uint-write_uint p laws 1 b.policy _ (omega (arith, typed.policy_fits))))
      ∙ then_read-last (quiet (read_map p 4)) _ bottles rest b.bottles
          (ap some (read_map-write_map p laws 4 b.bottles rest typed.bottles_fit))
      ∙ ap some (check_header-typed o b rest typed)
