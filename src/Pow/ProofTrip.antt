-- ===== src/Pow/ProofTrip.antt =====
-- Proofs of work of a hash or a text are read back from their bytes; an unknown kind panics.
use epic.Base.{
  ℕ, ◌<◌, ◌≤◌, ◌≡◌, ◌^◌, refl, ap, ◌∙◌, arith, Bool, true, List, ◌++◌, some, length, if◌then◌else◌,
}
use mathlib.Core.List.{append_assoc}
use epic.Base.Results.{ok}
use epic.Consensus.Emission.{ChainTypes}
use epic.Ser.{
  Packages, ReadsBack, full, write_uint, read_uint, write_bytes, read_bytes_len_prefix,
  read_fixed_bytes,
}
use epic.Ser.Codec.{read_uint-write_uint, read_fixed_bytes-append, bind-append}
use epic.Pow.Maps.{write_map, read_map}
use epic.Pow.MapTrip.{Fits, read_map-write_map}
use epic.Pow.Proof.{
  Proof, cuckoo_proof, md5_proof, random_x_proof, prog_pow_proof, Panicking, quiet, unwrap,
  then_read, write_proof, read_md5, read_body_of, read_proof, ProofOfWork, write_pre_pow, write_pow,
  read_pow,
}

pub then_read-append :
    {A B : Type 0} (m : Panicking A) (f : A → Panicking B) (xs ys rest : List ℕ) (a : A)
    → m (xs ++ (ys ++ rest)) ≡ some (ok (a, ys ++ rest))
    → then_read m f ((xs ++ ys) ++ rest) ≡ f a (ys ++ rest)
then_read-append m f xs ys rest a e = rw append_assoc (rw (e, then_read) refl)

pub then_read-last :
    {A B : Type 0} (m : Panicking A) (f : A → Panicking B) (xs rest : List ℕ) (a : A)
    → m (xs ++ rest) ≡ some (ok (a, rest))
    → then_read m f (xs ++ rest) ≡ f a rest
then_read-last m f xs rest a e = rw (e, then_read) refl

-- A proof that is a hash of 32 bytes, or a text.
unfoldable pub IsHashOrText : (List ℕ → Bool) → Proof → Type 0
IsHashOrText is_utf8 (cuckoo_proof bits nonces) = ⊥
IsHashOrText is_utf8 (md5_proof bits text) =
    (bits < 256) × (length text ≤ 100000) × (is_utf8 text ≡ true)
IsHashOrText is_utf8 (random_x_proof h) = length h ≡ 32
IsHashOrText is_utf8 (prog_pow_proof h) = length h ≡ 32

-- What the types say of a proof of work that is not of Cuckoo.
pub record IsTyped (is_utf8 : List ℕ → Bool) (pow : ProofOfWork) : Type 0 where
  pub difficulty_fits : Fits (256 ^ 8) pow.total_difficulty
  pub scaling_fits : pow.secondary_scaling < 256 ^ 4
  pub nonce_fits : pow.nonce < 256 ^ 8
  pub proof_typed : IsHashOrText is_utf8 pow.proof
  pub seed_size : length pow.seed ≡ 32

module _ (p : Packages) (laws : ReadsBack p) (chain : ChainTypes) (is_utf8 : List ℕ → Bool) where
  read_proof-write_proof :
      (proof : Proof) (rest : List ℕ)
      → IsHashOrText is_utf8 proof
      → read_proof p chain is_utf8 (write_proof p chain full proof ++ rest)
        ≡ some (ok (proof, rest))
  unfolding read_proof read_body_of read_md5 write_proof write_bytes read_bytes_len_prefix
      IsHashOrText
  read_proof-write_proof (cuckoo_proof bits nonces) rest typed = elim typed [ ]
  read_proof-write_proof (md5_proof bits text) rest (fits, short, utf8) =
      then_read-append (quiet (read_uint p 1)) _ (write_uint p 1 1) _ rest 1
        (ap some (read_uint-write_uint p laws 1 1 _ (omega arith)))
      ∙ then_read-append (quiet (read_uint p 1)) _ (write_uint p 1 bits) _ rest bits
          (ap some (read_uint-write_uint p laws 1 bits _ (omega (arith, fits))))
      ∙ then_read-last (quiet (read_bytes_len_prefix p)) _ (write_uint p 8 (length text) ++ text)
          rest text
          (ap some (
            bind-append (read_uint p 8) _ (write_uint p 8 (length text)) text rest (length text)
              (read_uint-write_uint p laws 8 (length text) _ (omega (arith, short)))
            ∙ read_fixed_bytes-append (length text) text rest short refl))
      ∙ rw (utf8, if◌then◌else◌) refl
  read_proof-write_proof (random_x_proof h) rest size =
      then_read-append (quiet (read_uint p 1)) _ (write_uint p 1 2) _ rest 2
        (ap some (read_uint-write_uint p laws 1 2 _ (omega arith)))
      ∙ rw (read_fixed_bytes-append 32 h rest (omega arith) size, then_read, unwrap) refl
  read_proof-write_proof (prog_pow_proof h) rest size =
      then_read-append (quiet (read_uint p 1)) _ (write_uint p 1 3) _ rest 3
        (ap some (read_uint-write_uint p laws 1 3 _ (omega arith)))
      ∙ rw (read_fixed_bytes-append 32 h rest (omega arith) size, then_read, unwrap) refl

  pub read_pow-write_pow :
      (pow : ProofOfWork) (rest : List ℕ)
      → IsTyped is_utf8 pow
      → read_pow p chain is_utf8 (write_pow p chain full pow ++ rest) ≡ some (ok (pow, rest))
  unfolding read_pow write_pow write_pre_pow
  read_pow-write_pow pow rest typed =
      let difficulty = write_map p 8 pow.total_difficulty in
      let scaling = write_uint p 4 pow.secondary_scaling in
      let nonce = write_uint p 8 pow.nonce in
      let after = write_proof p chain full pow.proof ++ pow.seed in
      let flat : ((difficulty ++ scaling) ++ nonce) ++ after
          ≡ difficulty ++ (scaling ++ (nonce ++ after)) =
        append_assoc (difficulty ++ scaling) nonce after
        ∙ append_assoc difficulty scaling (nonce ++ after) in
      ap (λ (bs : List ℕ). read_pow p chain is_utf8 (bs ++ rest)) flat
      ∙ then_read-append (quiet (read_map p 8)) _ difficulty _ rest pow.total_difficulty
          (ap some (read_map-write_map p laws 8 pow.total_difficulty _ typed.difficulty_fits))
      ∙ then_read-append (quiet (read_uint p 4)) _ scaling _ rest pow.secondary_scaling
          (ap some (read_uint-write_uint p laws 4 pow.secondary_scaling _ typed.scaling_fits))
      ∙ then_read-append (quiet (read_uint p 8)) _ nonce _ rest pow.nonce
          (ap some (read_uint-write_uint p laws 8 pow.nonce _ typed.nonce_fits))
      ∙ then_read-append (read_proof p chain is_utf8) _ (write_proof p chain full pow.proof) _ rest
          pow.proof (read_proof-write_proof pow.proof _ typed.proof_typed)
      ∙ then_read-last (quiet (read_fixed_bytes 32)) _ pow.seed rest pow.seed
          (ap some (read_fixed_bytes-append 32 pow.seed rest (omega arith) typed.seed_size))
