-- ===== src/Transaction/Codec.antt =====
-- Round trips of kernels, inputs, outputs and transactions.
use epic.Base.{
  ℕ, zero, suc, ◌-◌, ◌≤◌, ◌≡◌, refl, ap, ap₂, sym, ◌∙◌, arith, List, [], ◌∷◌, ◌++◌, length,
  replicate, take, min,
}
use mathlib.Core.List.{append-nil}
use epic.Base.Results.{ok}
use epic.Ser.{
  Packages, ReadsBack, ◌>>=◌, full, write_uint, read_uint, read_commitment, read_signature,
  write_range_proof, read_range_proof, read_fixed_bytes, max_proof_size, write_bytes,
}
use epic.Ser.Codec.{
  RoundTrips, read_fixed_bytes-append, bind-append, bind-last, read_uint-write_uint,
}
use epic.Transaction.Kernel as kernel
use epic.Transaction.Kernel.{TxKernel}
use epic.Transaction.Outputs as outputs
use epic.Transaction.Outputs.{Input, Output}

take-all : {A : Type 0} (n : ℕ) (xs : List A) → length xs ≤ n → take n xs ≡ xs
take-all zero [] le = refl
take-all zero (x ∷ xs) le = ground (arith, le)
take-all (suc n) [] le = refl
take-all (suc n) (x ∷ xs) le = ap (λ ys. x ∷ ys) (take-all n xs (omega (arith, le)))

module _ (p : Packages) (laws : ReadsBack p) where
  read_features-write_features :
      RoundTrips (kernel.write_features p) (kernel.read_features p) (λ _. Unit)
  unfolding kernel.write_features kernel.read_features kernel.as_u8 kernel.from_u8
  read_features-write_features kernel.plain rest _ =
      rw (read_uint-write_uint p laws 1 0 rest (omega arith), ◌>>=◌) refl
  read_features-write_features kernel.coinbase rest _ =
      rw (read_uint-write_uint p laws 1 1 rest (omega arith), ◌>>=◌) refl
  read_features-write_features kernel.height_locked rest _ =
      rw (read_uint-write_uint p laws 1 2 rest (omega arith), ◌>>=◌) refl

  pub read-write_kernel : RoundTrips (kernel.write p) (kernel.read p) kernel.IsTyped
  unfolding kernel.write kernel.read read_commitment read_signature
  read-write_kernel k rest typed =
      bind-append (kernel.read_features p) _ (kernel.write_features p k.features) _ rest k.features
        (read_features-write_features k.features _ tt)
      ∙ bind-append (read_uint p 8) _ (write_uint p 8 k.fee) _ rest k.fee
          (read_uint-write_uint p laws 8 k.fee _ typed.fee_fits)
      ∙ bind-append (read_uint p 8) _ (write_uint p 8 k.lock_height) _ rest k.lock_height
          (read_uint-write_uint p laws 8 k.lock_height _ typed.lock_height_fits)
      ∙ bind-append read_commitment _ k.excess _ rest k.excess
          (read_fixed_bytes-append 33 k.excess _ (omega arith) typed.excess_size)
      ∙ bind-last read_signature _ k.excess_sig rest k.excess_sig
          (read_fixed_bytes-append 64 k.excess_sig rest (omega arith) typed.excess_sig_size)

  read_output_features-write_features :
      RoundTrips (outputs.write_features p) (outputs.read_features p) (λ _. Unit)
  unfolding outputs.write_features outputs.read_features outputs.as_u8 outputs.from_u8
  read_output_features-write_features outputs.plain rest _ =
      rw (read_uint-write_uint p laws 1 0 rest (omega arith), ◌>>=◌) refl
  read_output_features-write_features outputs.coinbase rest _ =
      rw (read_uint-write_uint p laws 1 1 rest (omega arith), ◌>>=◌) refl

  pub read-write_input :
      RoundTrips (outputs.write_input p) (outputs.read_input p) (λ i. length i.commit ≡ 33)
  unfolding outputs.write_input outputs.read_input read_commitment
  read-write_input i rest size =
      bind-append (outputs.read_features p) _ (outputs.write_features p i.features) _ rest
        i.features (read_output_features-write_features i.features _ tt)
      ∙ bind-last read_commitment _ i.commit rest i.commit
          (read_fixed_bytes-append 33 i.commit rest (omega arith) size)

  read-write_range_proof :
      RoundTrips
        (write_range_proof p)
        (read_range_proof p)
        (λ r. (r.plen ≡ max_proof_size) × (length r.proof ≡ max_proof_size))
  unfolding write_range_proof read_range_proof write_bytes
  read-write_range_proof r rest (plen, size) =
      let whole : take r.plen r.proof ≡ r.proof =
        take-all r.plen r.proof (omega (arith, plen, size)) in
      let padded : r.proof ++ replicate (max_proof_size - length r.proof) 0 ≡ r.proof =
        ap (λ (n : ℕ). r.proof ++ replicate (max_proof_size - n) 0) size ∙ append-nil r.proof in
      rw whole (
        bind-append (read_uint p 8) _ (write_uint p 8 (length r.proof)) r.proof rest
          (length r.proof) (read_uint-write_uint p laws 8 (length r.proof) _ (omega (arith, size)))
        ∙ bind-last (read_fixed_bytes (min (length r.proof) max_proof_size)) _ r.proof rest r.proof
            (read_fixed_bytes-append (min (length r.proof) max_proof_size) r.proof rest
              (omega (arith, size)) (omega (arith, size)))
        ∙ ap₂ (λ (n : ℕ) (xs : List ℕ). ok (record { plen = n; proof = xs }, rest)) (sym plen)
            padded)

  pub read-write_output :
      RoundTrips (outputs.write_output p full) (outputs.read_output p) outputs.IsTyped
  unfolding outputs.write_output outputs.read_output read_commitment
  read-write_output o rest typed =
      bind-append (outputs.read_features p) _ (outputs.write_features p o.features) _ rest
        o.features (read_output_features-write_features o.features _ tt)
      ∙ bind-append read_commitment _ o.commit _ rest o.commit
          (read_fixed_bytes-append 33 o.commit _ (omega arith) typed.commit_size)
      ∙ bind-last (read_range_proof p) _ (write_range_proof p o.proof) rest o.proof
          (read-write_range_proof o.proof rest (typed.plen_full, typed.proof_size))
