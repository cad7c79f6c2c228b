-- ===== src/Committed.antt =====
-- core/src/core/committed.rs: sums of commitments. The curve is a parameter.
use epic.Base.{
  ℕ, zero, suc, ◌-◌, ◌^◌, Bool, true, false, not, ◌&&◌, List, [], ◌∷◌, ◌++◌, ◌==◌, if◌then◌else◌,
  ◌≡◌, refl, arith, replicate, min, take, length,
}
use epic.Base.Signed.{ℤ, pos, negsuc}
use epic.Base.Results.{Result, ok, err, ◌>>=◌, map_err}
use epic.Ser.{RangeProof, secret_key_size}
use epic.Transaction.Errors.{CommittedError, keychain, secp, kernel_sum_mismatch, invalid_value}

-- Functions of the secp256k1 package on the bytes of keys, commitments and signatures; an error
-- stands by a number.
pub record Curve : Type 0 where
  pub commit_sum : List (List ℕ) → List (List ℕ) → Result ℕ (List ℕ)
  pub commit : ℕ → List ℕ → Result ℕ (List ℕ)
  pub commit_value : ℕ → Result ℕ (List ℕ)
  pub commit_to_zero_value : List ℕ
  pub blind_sum : List (List ℕ) → List (List ℕ) → Result ℕ (List ℕ)
  pub secret_key_from_slice : List ℕ → Result ℕ (List ℕ)
  pub to_pubkey : List ℕ → Result ℕ (List ℕ)
  pub verify_single : List ℕ → ℕ → List ℕ → Bool
  pub verify_bullet_proof_multi : List (List ℕ) → List RangeProof → Result ℕ (Unit {0})

-- `==` of arrays.
unfoldable pub same_bytes : List ℕ → List ℕ → Bool
same_bytes [] [] = true
same_bytes [] (y ∷ ys) = false
same_bytes (x ∷ xs) [] = false
same_bytes (x ∷ xs) (y ∷ ys) = x == y && same_bytes xs ys

pub same_bytes-≡ : (xs ys : List ℕ) → same_bytes xs ys ≡ true → xs ≡ ys
unfolding same_bytes
same_bytes-≡ [] [] e = refl
same_bytes-≡ [] (y ∷ ys) e = cc
same_bytes-≡ (x ∷ xs) [] e = cc
same_bytes-≡ (x ∷ xs) (y ∷ ys) e =
    let (first, rest) : (x ≡ y) × (same_bytes xs ys ≡ true) = ground (arith, e) in
    let tails = same_bytes-≡ xs ys rest in cc (first, tails)

pub same_bytes_refl : (xs : List ℕ) → same_bytes xs xs ≡ true
unfolding same_bytes
same_bytes_refl [] = refl
same_bytes_refl (x ∷ xs) = ground (arith, same_bytes_refl xs)

unfoldable pub retain : {A : Type 0} → (A → Bool) → List A → List A
retain p [] = []
retain p (x ∷ xs) = if p x then x ∷ retain p xs else retain p xs

abbrev pub zero_factor : List ℕ
zero_factor = replicate secret_key_size 0

-- `BlindingFactor::from_slice`
unfoldable pub from_slice : List ℕ → List ℕ
from_slice bytes =
    take secret_key_size bytes ++ replicate (secret_key_size - min secret_key_size (length bytes)) 0

-- `unwrap` of what `commit_value` gives. The panic where it fails is left out: no bytes stand there.
unfoldable pub unwrap_commit : Result ℕ (List ℕ) → List ℕ
unwrap_commit (err e) = []
unwrap_commit (ok commit) = commit

module _ (c : Curve) where
  -- `BlindingFactor::secret_key`
  unfoldable pub secret_key : List ℕ → Result CommittedError (List ℕ)
  secret_key factor =
      if same_bytes factor zero_factor
      then ok zero_factor
      else map_err keychain (c.secret_key_from_slice factor)

  unfoldable pub sum_commits : List (List ℕ) → List (List ℕ) → Result CommittedError (List ℕ)
  sum_commits positive negative =
      let kept = retain (λ x. not (same_bytes x c.commit_to_zero_value)) in
      map_err secp (c.commit_sum (kept positive) (kept negative))

  unfoldable pub to_secrets : List (List ℕ) → List (List ℕ)
  to_secrets [] = []
  to_secrets (factor ∷ factors) =
      let rest = to_secrets factors in
      if same_bytes factor zero_factor
      then rest
      else elim (secret_key factor) [ ok key ↦ key ∷ rest | err e ↦ rest ]

  unfoldable pub sum_kernel_offsets : List (List ℕ) → List (List ℕ) → Result CommittedError (List ℕ)
  sum_kernel_offsets positive negative = elim (to_secrets positive) [
    | [] ↦ ok zero_factor
    | key ∷ keys ↦
        map_err secp (c.blind_sum (key ∷ keys) (to_secrets negative)) >>= λ sum. ok (from_slice sum)
  ]

  unfoldable pub sum_kernel_excesses :
      List (List ℕ) → List ℕ → Result CommittedError (List ℕ × List ℕ)
  sum_kernel_excesses kernel_commits offset = do
    kernel_sum ← sum_commits kernel_commits []
    commits ← if same_bytes offset zero_factor then ok (kernel_sum ∷ []) else (do
      key ← secret_key offset
      offset_commit ← map_err secp (c.commit 0 key)
      ok (kernel_sum ∷ offset_commit ∷ []))
    kernel_sum_plus_offset ← map_err secp (c.commit_sum commits [])
    ok (kernel_sum, kernel_sum_plus_offset)

  -- `checked_abs` fails on the least `i64`.
  unfoldable pub sum_commitments :
      List (List ℕ) → List (List ℕ) → ℤ → Result CommittedError (List ℕ)
  sum_commitments inputs outputs (pos zero) = sum_commits outputs inputs
  sum_commitments inputs outputs (pos (suc n)) =
      sum_commits (outputs ++ unwrap_commit (c.commit_value (suc n)) ∷ []) inputs
  sum_commitments inputs outputs (negsuc n) =
      if n == 2 ^ 63 - 1
      then err invalid_value
      else sum_commits outputs (inputs ++ unwrap_commit (c.commit_value (suc n)) ∷ [])

  unfoldable pub verify_kernel_sums :
      List (List ℕ)
      → List (List ℕ)
      → List (List ℕ)
      → ℤ
      → List ℕ
      → Result CommittedError (List ℕ × List ℕ)
  verify_kernel_sums inputs outputs kernels overage kernel_offset = do
    utxo_sum ← sum_commitments inputs outputs overage
    sums ← sum_kernel_excesses kernels kernel_offset
    if not (same_bytes utxo_sum (sums.1)) then err kernel_sum_mismatch else ok (utxo_sum, sums.0)
