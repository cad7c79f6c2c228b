-- ===== src/Transaction/Outputs.antt =====
-- Inputs and outputs of core/src/core/transaction.rs.
use epic.Base.{
  ℕ, ◌≡◌, Bool, true, false, List, [], ◌++◌, Option, none, some, ◌==◌, if◌then◌else◌, length,
}
use epic.Ser.{
  Packages, SerializationMode, full, hash, Reader, ◌>>=◌, pure, ok_or, write_uint, read_uint,
  corrupted_data, read_commitment, RangeProof, write_range_proof, read_range_proof,
  pedersen_commitment_size, max_proof_size,
}

pub data OutputFeatures : Type 0 where
  plain coinbase : OutputFeatures

-- `*self as u8`
unfoldable pub as_u8 : OutputFeatures → ℕ
as_u8 plain = 0
as_u8 coinbase = 1

unfoldable pub from_u8 : ℕ → Option OutputFeatures
from_u8 n = if n == 0 then some plain else if n == 1 then some coinbase else none

unfoldable pub write_features : Packages → OutputFeatures → List ℕ
write_features p f = write_uint p 1 (as_u8 f)

unfoldable pub read_features : Packages → Reader OutputFeatures
read_features p = do b ← read_uint p 1; ok_or (from_u8 b) corrupted_data

unfoldable pub is_coinbase : OutputFeatures → Bool
is_coinbase plain = false
is_coinbase coinbase = true

pub record Input : Type 0 where
  pub features : OutputFeatures
  pub commit : List ℕ

pub record Output : Type 0 where
  pub features : OutputFeatures
  pub commit : List ℕ
  pub proof : RangeProof

unfoldable pub is_coinbase_output : Output → Bool
is_coinbase_output o = is_coinbase o.features

pub record OutputIdentifier : Type 0 where
  pub features : OutputFeatures
  pub commit : List ℕ

module _ (p : Packages) where
  unfoldable pub write_input : Input → List ℕ
  write_input i = write_features p i.features ++ i.commit

  unfoldable pub read_input : Reader Input
  read_input = do
    features ← read_features p
    commit ← read_commitment
    pure (record { features = features; commit = commit })

  unfoldable pub write_identifier : OutputIdentifier → List ℕ
  write_identifier o = write_features p o.features ++ o.commit

  unfoldable pub read_identifier : Reader OutputIdentifier
  read_identifier = do
    features ← read_features p
    commit ← read_commitment
    pure (record { features = features; commit = commit })

  -- The hash of an output leaves the range proof out.
  unfoldable pub write_output : SerializationMode → Output → List ℕ
  write_output mode o =
      write_features p o.features
      ++ (o.commit ++ elim mode [ hash ↦ [] | full ↦ write_range_proof p o.proof ])

  unfoldable pub read_output : Reader Output
  read_output = do
    features ← read_features p
    commit ← read_commitment
    proof ← read_range_proof p
    pure (record { features = features; commit = commit; proof = proof })

  -- The hashes of `DefaultHashable`.
  unfoldable pub hash_input : Input → ℕ
  hash_input i = p.digest (write_input i)

  unfoldable pub hash_output : Output → ℕ
  hash_output o = p.digest (write_output hash o)

  unfoldable pub hash_identifier : OutputIdentifier → ℕ
  hash_identifier o = p.digest (write_identifier o)

unfoldable pub from_output : Output → OutputIdentifier
from_output o = record { features = o.features; commit = o.commit }

unfoldable pub into_output : OutputIdentifier → RangeProof → Output
into_output o proof = record { features = o.features; commit = o.commit; proof = proof }

unfoldable pub from_input : Input → OutputIdentifier
from_input i = record { features = i.features; commit = i.commit }

-- What the types say, for a proof of full length.
pub record IsTyped (o : Output) : Type 0 where
  pub commit_size : length o.commit ≡ pedersen_commitment_size
  pub plen_full : o.proof.plen ≡ max_proof_size
  pub proof_size : length o.proof.proof ≡ max_proof_size
