-- ===== src/Transaction/Kernel.antt =====
-- Kernels of core/src/core/transaction.rs.
use epic.Base.{
  ℕ, ◌^◌, ◌≡◌, ◌<◌, Bool, true, false, not, ◌&&◌, List, ◌++◌, Option, none, some, replicate, ltb,
  ◌==◌, if◌then◌else◌, length,
}
use epic.Base.Results.{Result, ok, err}
use epic.Ser.{
  Packages, Reader, ◌>>=◌, pure, ok_or, write_uint, read_uint, corrupted_data, read_commitment,
  read_signature, pedersen_commitment_size, agg_signature_size,
}
use epic.Transaction.Errors.{Error, invalid_kernel_features}

pub data KernelFeatures : Type 0 where
  plain coinbase height_locked : KernelFeatures

-- `*self as u8`
unfoldable pub as_u8 : KernelFeatures → ℕ
as_u8 plain = 0
as_u8 coinbase = 1
as_u8 height_locked = 2

unfoldable pub from_u8 : ℕ → Option KernelFeatures
from_u8 n =
    if n == 0
    then some plain
    else if n == 1
    then some coinbase
    else if n == 2
    then some height_locked
    else none

unfoldable pub write_features : Packages → KernelFeatures → List ℕ
write_features p f = write_uint p 1 (as_u8 f)

unfoldable pub read_features : Packages → Reader KernelFeatures
read_features p = do b ← read_uint p 1; ok_or (from_u8 b) corrupted_data

pub record TxKernel : Type 0 where
  pub features : KernelFeatures
  pub fee : ℕ
  pub lock_height : ℕ
  pub excess : List ℕ
  pub excess_sig : List ℕ

module _ (p : Packages) where
  unfoldable pub write : TxKernel → List ℕ
  write k =
      write_features p k.features
      ++ (write_uint p 8 k.fee ++ (write_uint p 8 k.lock_height ++ (k.excess ++ k.excess_sig)))

  unfoldable pub read : Reader TxKernel
  read = do
    features ← read_features p
    fee ← read_uint p 8
    lock_height ← read_uint p 8
    excess ← read_commitment
    excess_sig ← read_signature
    pure (record {
      features = features;
      fee = fee;
      lock_height = lock_height;
      excess = excess;
      excess_sig = excess_sig;
    })

  -- The hash of `DefaultHashable`.
  unfoldable pub hash : TxKernel → ℕ
  hash k = p.digest (write k)

unfoldable pub is_coinbase : TxKernel → Bool
is_coinbase k = elim k.features [ plain ↦ false | coinbase ↦ true | height_locked ↦ false ]

unfoldable pub is_height_locked : TxKernel → Bool
is_height_locked k = elim k.features [ plain ↦ false | coinbase ↦ false | height_locked ↦ true ]

unfoldable pub empty : TxKernel
empty = record {
  features = plain;
  fee = 0;
  lock_height = 0;
  excess = replicate pedersen_commitment_size 0;
  excess_sig = replicate agg_signature_size 0;
}

unfoldable pub kernel_features : ℕ → KernelFeatures
kernel_features lock_height = if ltb 0 lock_height then height_locked else plain

unfoldable pub with_fee : TxKernel → ℕ → TxKernel
with_fee k fee = record k { fee = fee }

unfoldable pub with_lock_height : TxKernel → ℕ → TxKernel
with_lock_height k lock_height = record k {
  features = kernel_features lock_height;
  lock_height = lock_height;
}

-- The hash that `kernel_sig_msg` signs, which secp256k1 takes as it is.
unfoldable pub kernel_sig_msg : Packages → ℕ → ℕ → KernelFeatures → Result Error ℕ
kernel_sig_msg p fee lock_height features =
    let valid_features : Bool = elim features [
      | coinbase ↦ fee == 0 && lock_height == 0
      | plain ↦ lock_height == 0
      | height_locked ↦ true
    ] in
    if not valid_features
    then err invalid_kernel_features
    else ok (elim features [
      | coinbase ↦ p.digest (write_features p coinbase)
      | plain ↦ p.digest (write_features p plain ++ write_uint p 8 fee)
      | height_locked ↦
          p.digest
            (write_features p height_locked ++ (write_uint p 8 fee ++ write_uint p 8 lock_height))
    ])

unfoldable pub msg_to_sign : Packages → TxKernel → Result Error ℕ
msg_to_sign p k = kernel_sig_msg p k.fee k.lock_height k.features

-- What the types say: words of 64 bits and arrays of bytes.
pub record IsTyped (k : TxKernel) : Type 0 where
  pub fee_fits : k.fee < 256 ^ 8
  pub lock_height_fits : k.lock_height < 256 ^ 8
  pub excess_size : length k.excess ≡ pedersen_commitment_size
  pub excess_sig_size : length k.excess_sig ≡ agg_signature_size
