-- ===== src/Transaction/Body.antt =====
-- Bodies and transactions of core/src/core/transaction.rs: weights, the checks, and reading.
use epic.Base.{
  ℕ, ◌+◌, ◌-◌, ◌*◌, ◌/◌, ◌%◌, ◌^◌, max, min, Bool, true, false, List, [], ◌∷◌, ◌++◌, map, length,
  ltb, if◌then◌else◌, Option, none, some, replicate,
}
use Prim.Native.Nat.{compare, Ordering}
use epic.Base.Results.{Result, ok, err, ◌>>◌, map_err}
use epic.Consensus.Emission.{ChainTypes, automated_testing, user_testing, floonet, mainnet}
use epic.Ser.{
  Packages, Reader, ◌>>=◌, pure, fail, write_uint, read_uint, read_multi, write_vec,
  read_blinding_factor, full, corrupted_data, too_large_read_err, verify_sorted_and_unique,
  secret_key_size,
}
use epic.Transaction.Errors.{
  Error, too_heavy, cut_through, invalid_output_features, invalid_kernel_features, serialization,
}
use epic.Transaction.Kernel as kernel
use epic.Transaction.Kernel.{TxKernel}
use epic.Transaction.Outputs.{
  Input, Output, hash_input, hash_output, write_input, read_input, write_output, read_output,
  is_coinbase_output,
}
use epic.Transaction.Sorting.{sort, insert_new}

pub record TransactionBody : Type 0 where
  pub inputs : List Input
  pub outputs : List Output
  pub kernels : List TxKernel

pub record Transaction : Type 0 where
  pub offset : List ℕ
  pub body : TransactionBody

pub data Weighting : Type 0 where
  as_transaction : Weighting
  as_limited_transaction : ℕ → Weighting
  as_block no_limit : Weighting

-- `saturating_mul` and `saturating_add` of `usize` and `u64`.
abbrev pub saturating : ℕ → ℕ
saturating n = min n (2 ^ 64 - 1)

abbrev pub block_input_weight : ℕ
block_input_weight = 1

abbrev pub block_output_weight : ℕ
block_output_weight = 21

abbrev pub block_kernel_weight : ℕ
block_kernel_weight = 3

abbrev pub max_block_weight : ChainTypes → ℕ
max_block_weight automated_testing = 150
max_block_weight user_testing = 150
max_block_weight floonet = 40_000
max_block_weight mainnet = 40_000

unfoldable pub weight : ℕ → ℕ → ℕ → ℕ
weight input_len output_len kernel_len =
    max (saturating (saturating (output_len * 4) + kernel_len) - input_len) 1

unfoldable pub weight_as_block : ℕ → ℕ → ℕ → ℕ
weight_as_block input_len output_len kernel_len =
    let inputs = saturating (input_len * block_input_weight) in
    let outputs = saturating (output_len * block_output_weight) in
    let kernels = saturating (kernel_len * block_kernel_weight) in
    saturating (saturating (inputs + outputs) + kernels)

unfoldable pub body_weight : TransactionBody → ℕ
body_weight b = weight (length b.inputs) (length b.outputs) (length b.kernels)

unfoldable pub body_weight_as_block : TransactionBody → ℕ
body_weight_as_block b = weight_as_block (length b.inputs) (length b.outputs) (length b.kernels)

abbrev pub coinbase_weight : ℕ
coinbase_weight = block_output_weight + block_kernel_weight

-- `none` for no limit.
unfoldable pub max_weight : ChainTypes → Weighting → Option ℕ
max_weight chain as_transaction = some (max_block_weight chain - coinbase_weight)
max_weight chain (as_limited_transaction limit) =
    some (min (max_block_weight chain) limit - coinbase_weight)
max_weight chain as_block = some (max_block_weight chain)
max_weight chain no_limit = none

unfoldable pub verify_weight : ChainTypes → Weighting → TransactionBody → Result Error (Unit {0})
verify_weight chain weighting b = elim (max_weight chain weighting) [
  | none ↦ ok tt
  | some limit ↦ if ltb limit (body_weight_as_block b) then err too_heavy else ok tt
]

-- The loop over the peeked hashes of inputs and outputs.
unfoldable pub merge_hashes : List ℕ → List ℕ → Result Error (Unit {0})
merge_hashes [] outputs = ok tt
merge_hashes (i ∷ inputs) [] = ok tt
merge_hashes (i ∷ inputs) (o ∷ outputs) = elim (compare i o) [
  | Ordering.lt ↦ merge_hashes inputs (o ∷ outputs)
  | Ordering.gt ↦ merge_hashes (i ∷ inputs) outputs
  | Ordering.eq ↦ err cut_through
]

unfoldable pub any : {A : Type 0} → (A → Bool) → List A → Bool
any p [] = false
any p (x ∷ xs) = if p x then true else any p xs

unfoldable pub verify_output_features : TransactionBody → Result Error (Unit {0})
verify_output_features b =
    if any is_coinbase_output b.outputs then err invalid_output_features else ok tt

unfoldable pub verify_kernel_features : TransactionBody → Result Error (Unit {0})
verify_kernel_features b =
    if any kernel.is_coinbase b.kernels then err invalid_kernel_features else ok tt

unfoldable pub verify_features : TransactionBody → Result Error (Unit {0})
verify_features b = verify_output_features b >> verify_kernel_features b

-- `saturating_add` of the fees.
unfoldable pub fee_from : ℕ → List TxKernel → ℕ
fee_from acc [] = acc
fee_from acc (k ∷ kernels) = fee_from (saturating (acc + k.fee)) kernels

unfoldable pub fee : TransactionBody → ℕ
fee b = fee_from 0 b.kernels

unfoldable pub max_lock_height : List TxKernel → ℕ
max_lock_height [] = 0
max_lock_height (k ∷ kernels) = max k.lock_height (max_lock_height kernels)

unfoldable pub lock_height : TransactionBody → ℕ
lock_height b = max_lock_height b.kernels

unfoldable pub empty_body : TransactionBody
empty_body = record { inputs = []; outputs = []; kernels = [] }

module _ (p : Packages) where
  unfoldable pub sort_body : TransactionBody → TransactionBody
  sort_body b = record {
    inputs = sort (hash_input p) b.inputs;
    outputs = sort (hash_output p) b.outputs;
    kernels = sort (kernel.hash p) b.kernels;
  }

  unfoldable pub verify_sorted : TransactionBody → Result Error (Unit {0})
  verify_sorted b = map_err serialization (
      verify_sorted_and_unique (map (hash_input p) b.inputs)
      >> verify_sorted_and_unique (map (hash_output p) b.outputs)
      >> verify_sorted_and_unique (map (kernel.hash p) b.kernels))

  unfoldable pub init :
      List Input → List Output → List TxKernel → Bool → Result Error TransactionBody
  init inputs outputs kernels verify =
      let body : TransactionBody = record {
        inputs = inputs;
        outputs = outputs;
        kernels = kernels;
      } in
      if verify then verify_sorted body >> ok body else ok (sort_body body)

  unfoldable pub with_input : TransactionBody → Input → TransactionBody
  with_input b i = record b { inputs = insert_new (hash_input p) i b.inputs }

  unfoldable pub with_output : TransactionBody → Output → TransactionBody
  with_output b o = record b { outputs = insert_new (hash_output p) o b.outputs }

  unfoldable pub with_kernel : TransactionBody → TxKernel → TransactionBody
  with_kernel b k = record b { kernels = insert_new (kernel.hash p) k b.kernels }

  unfoldable pub verify_cut_through : TransactionBody → Result Error (Unit {0})
  verify_cut_through b = merge_hashes (map (hash_input p) b.inputs) (map (hash_output p) b.outputs)

  -- `TransactionBody::validate_read`
  unfoldable pub validate_body : ChainTypes → Weighting → TransactionBody → Result Error (Unit {0})
  validate_body chain weighting b =
      verify_weight chain weighting b >> verify_sorted b >> verify_cut_through b

  -- `Transaction::validate_read`
  unfoldable pub validate_read : ChainTypes → Transaction → Result Error (Unit {0})
  validate_read chain tx = validate_body chain as_transaction tx.body >> verify_features tx.body

  unfoldable pub write_body : TransactionBody → List ℕ
  write_body b =
      write_uint p 8 (length b.inputs)
      ++ (write_uint p 8 (length b.outputs)
          ++ (write_uint p 8 (length b.kernels)
              ++ (write_vec (write_input p) b.inputs
                  ++ (write_vec (write_output p full) b.outputs
                      ++ write_vec (kernel.write p) b.kernels))))

  unfoldable pub write : Transaction → List ℕ
  write tx = tx.offset ++ write_body tx.body

-- `map_err(|_| ser::Error::CorruptedData)?`
unfoldable pub or_corrupted : {A : Type 0} → Result Error A → Reader A
or_corrupted (ok a) = pure a
or_corrupted (err e) = fail corrupted_data

module _ (p : Packages) (chain : ChainTypes) where
  -- What follows the quick check of the weight.
  unfoldable pub read_lists : ℕ → ℕ → ℕ → Reader TransactionBody
  read_lists input_len output_len kernel_len = do
    inputs ← read_multi (read_input p) input_len
    outputs ← read_multi (read_output p) output_len
    kernels ← read_multi (kernel.read p) kernel_len
    or_corrupted (init p inputs outputs kernels true)

  unfoldable pub read_body : Reader TransactionBody
  read_body = do
    input_len ← read_uint p 8
    output_len ← read_uint p 8
    kernel_len ← read_uint p 8
    if ltb (max_block_weight chain) (weight_as_block input_len output_len kernel_len)
        then fail too_large_read_err
        else read_lists input_len output_len kernel_len

  unfoldable pub read : Reader Transaction
  read = do
    offset ← read_blinding_factor
    body ← read_body
    let tx : Transaction = record { offset = offset; body = body }
    or_corrupted (validate_read p chain tx) >>= λ _. pure tx

unfoldable pub zero_offset : List ℕ
zero_offset = replicate secret_key_size 0

unfoldable pub empty : Transaction
empty = record { offset = zero_offset; body = empty_body }

unfoldable pub with_offset : Transaction → List ℕ → Transaction
with_offset tx offset = record tx { offset = offset }

-- The product wraps around.
unfoldable pub fee_to_weight : Transaction → ℕ
fee_to_weight tx = fee tx.body * 1000 % 2 ^ 64 / body_weight tx.body

unfoldable pub new : Packages → List Input → List Output → List TxKernel → Transaction
new p inputs outputs kernels = record {
  offset = zero_offset;
  body = sort_body p (record { inputs = inputs; outputs = outputs; kernels = kernels });
}
