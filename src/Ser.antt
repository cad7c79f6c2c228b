-- ===== src/Ser.antt =====
-- core/src/ser.rs: writing to and reading from bytes, and core/src/core/hash.rs. A writer appends to a
-- list of bytes; a reader takes from the front of one.
pub mod Codec
pub mod Tests
use epic.Base.{
  ℕ, zero, suc, ◌+◌, ◌<◌, ◌≡◌, Bool, List, [], ◌∷◌, ◌++◌, Option, none, some, length, ltb, ◌==◌,
  ◌^◌, if◌then◌else◌, min, take, replicate, ◌-◌,
}
use epic.Base.Results.{Result, ok, err}

pub data ErrorKind : Type 0 where
  unexpected_eof timed_out other : ErrorKind

pub data Error : Type 0 where
  io_err : ErrorKind → Error
  unexpected_data : List ℕ → List ℕ → Error
  corrupted_data count_error too_large_read_err hex_error sort_error duplicate_error : Error
  invalid_block_version : Error

pub data SerializationMode : Type 0 where
  full hash : SerializationMode

-- Functions of other packages: the big-endian bytes of a word and back (byteorder), by the number of
-- bytes, and the Blake2b digest of 32 bytes (blake2-rfc), read as a number, whose order is that of the
-- bytes.
pub record Packages : Type 0 where
  pub put_uint : ℕ → ℕ → List ℕ
  pub get_uint : List ℕ → ℕ
  pub digest : List ℕ → ℕ

-- The byte order is documented to read back what it wrote, in as many bytes as asked for.
pub record ReadsBack (p : Packages) : Type 0 where
  pub length_put : (w n : ℕ) → length (p.put_uint w n) ≡ w
  pub get_put : (w n : ℕ) → n < 256 ^ w → p.get_uint (p.put_uint w n) ≡ n

abbrev pub Reader : Type 0 → Type 0
Reader A = List ℕ → Result Error (A × List ℕ)

infixl 5 ◌>>=◌
abbrev pub ◌>>=◌ : {A B : Type 0} → Reader A → (A → Reader B) → Reader B
◌>>=◌ m f bs = elim (m bs) [ ok (a, rest) ↦ f a rest | err e ↦ err e ]

module _ {A : Type 0} where
  abbrev pub pure : A → Reader A
  pure a bs = ok (a, bs)

  abbrev pub fail : Error → Reader A
  fail e bs = err e

  -- `ok_or(e)?`
  abbrev pub ok_or : Option A → Error → Reader A
  ok_or o e = elim o [ none ↦ fail e | some a ↦ pure a ]

-- The bytes that `read_exact` fills a buffer with.
unfoldable pub take_exact : ℕ → List ℕ → Option (List ℕ × List ℕ)
take_exact zero bs = some ([], bs)
take_exact (suc n) [] = none
take_exact (suc n) (b ∷ bs) = elim (take_exact n bs) [
  | none ↦ none
  | some (xs, rest) ↦ some (b ∷ xs, rest)
]

unfoldable pub read_exact : ℕ → Reader (List ℕ)
read_exact n bs = elim (take_exact n bs) [ none ↦ err (io_err unexpected_eof) | some r ↦ ok r ]

unfoldable pub read_fixed_bytes : ℕ → Reader (List ℕ)
read_fixed_bytes len = if ltb 100_000 len then fail too_large_read_err else read_exact len

module _ (p : Packages) where
  unfoldable pub write_uint : ℕ → ℕ → List ℕ
  write_uint width n = p.put_uint width n

  -- `read_u8`, `read_u16`, `read_u32` and `read_u64` by the number of bytes.
  unfoldable pub read_uint : ℕ → Reader ℕ
  read_uint width = do bs ← read_exact width; pure (p.get_uint bs)

  unfoldable pub write_bytes : List ℕ → List ℕ
  write_bytes bytes = write_uint 8 (length bytes) ++ bytes

  unfoldable pub read_bytes_len_prefix : Reader (List ℕ)
  read_bytes_len_prefix = do len ← read_uint 8; read_fixed_bytes len

  unfoldable pub expect_u8 : ℕ → Reader ℕ
  expect_u8 val = do
    b ← read_uint 1
    if b == val then pure b else fail (unexpected_data (val ∷ []) (b ∷ []))

module _ {A : Type 0} where
  -- `IteratingReader::next`, as often as it gives an item.
  unfoldable pub collect : Reader A → ℕ → List ℕ → List A × List ℕ
  collect read zero bs = ([], bs)
  collect read (suc count) bs = elim (read bs) [
    | ok (x, rest) ↦ let (xs, rest') = collect read count rest in (x ∷ xs, rest')
    | err e ↦ ([], bs)
  ]

  unfoldable pub read_multi : Reader A → ℕ → Reader (List A)
  read_multi read count bs =
      if ltb 1_000_000 count
      then err too_large_read_err
      else (let (res, rest) = collect read count bs in
          if length res == count then ok (res, rest) else err count_error)

  -- `Writeable for Vec<T>`.
  unfoldable pub write_vec : (A → List ℕ) → List A → List ℕ
  write_vec write [] = []
  write_vec write (x ∷ xs) = write x ++ write_vec write xs

unfoldable pub write_pair : {A B : Type 0} → (A → List ℕ) → (B → List ℕ) → A × B → List ℕ
write_pair write_a write_b (a, b) = write_a a ++ write_b b

unfoldable pub read_pair : {A B : Type 0} → Reader A → Reader B → Reader (A × B)
read_pair read_a read_b = do a ← read_a; b ← read_b; pure (a, b)

-- The loop over `hashes.windows(2)`.
unfoldable pub verify_sorted_and_unique : List ℕ → Result Error (Unit {0})
verify_sorted_and_unique [] = ok tt
verify_sorted_and_unique (x ∷ []) = ok tt
verify_sorted_and_unique (x ∷ y ∷ hashes) =
    let rest = verify_sorted_and_unique (y ∷ hashes) in
    if ltb y x then err sort_error else if x == y then err duplicate_error else rest

-- Constants of the secp256k1 package, and `IDENTIFIER_SIZE`.
abbrev pub pedersen_commitment_size : ℕ
pedersen_commitment_size = 33

abbrev pub secret_key_size : ℕ
secret_key_size = 32

abbrev pub max_proof_size : ℕ
max_proof_size = 675

abbrev pub agg_signature_size : ℕ
agg_signature_size = 64

abbrev pub identifier_size : ℕ
identifier_size = 17

-- Commitments, blinding factors, identifiers, signatures and hashes are their bytes.
unfoldable pub read_commitment : Reader (List ℕ)
read_commitment = read_fixed_bytes pedersen_commitment_size

unfoldable pub read_blinding_factor : Reader (List ℕ)
read_blinding_factor = read_fixed_bytes secret_key_size

unfoldable pub read_identifier : Reader (List ℕ)
read_identifier = read_fixed_bytes identifier_size

unfoldable pub read_signature : Reader (List ℕ)
read_signature = read_fixed_bytes agg_signature_size

unfoldable pub read_hash : Reader (List ℕ)
read_hash = read_fixed_bytes 32

pub record RangeProof : Type 0 where
  pub plen : ℕ
  pub proof : List ℕ

-- The bytes of a proof are the first `plen` of its array.
unfoldable pub write_range_proof : Packages → RangeProof → List ℕ
write_range_proof p r = write_bytes p (take r.plen r.proof)

unfoldable pub read_range_proof : Packages → Reader RangeProof
read_range_proof p = do
  len ← read_uint p 8
  bytes ← read_fixed_bytes (min len max_proof_size)
  pure (record {
    plen = max_proof_size;
    proof = bytes ++ replicate (max_proof_size - length bytes) 0;
  })
