-- ===== src/Pmmr/Backend.antt =====
-- core/src/core/pmmr/backend.rs: the `Backend` trait that a mountain range stores its nodes in,
-- with what the trait's documentation promises of `append`, and the hashing of nodes by position
-- (`PMMRIndexHashable` of core/src/ser.rs, over the Blake2b of a third-party package).
use epic.Base.{ℕ, ◌+◌, ◌≤◌, ◌≡◌, Bool, List, Option, none, some, length, get_elem?}

-- The `String` errors of the range, by what they say.
pub data Error : Type 0 where
  bad_mmr_size missing_left_sibling not_a_leaf no_element invalid_parent backend_failed : Error

pub data Result {ℓ} (A : Type ℓ) : Type ℓ where
  ok : A → Result A
  err : Error → Result A

infixl 5 ◌>>=◌
abbrev pub ◌>>=◌ {ℓ κ} : {A : Type ℓ} {B : Type κ} → Result A → (A → Result B) → Result B
ok a >>= f = f a
err e >>= f = err e

-- `ok_or`
abbrev pub ok_or {ℓ} : {A : Type ℓ} → Option A → Error → Result A
ok_or o e = elim o [ none ↦ err e | some a ↦ ok a ]

-- How elements and pairs of children are hashed with the 0-based position of their node.
pub record Hashing : Type 1 where
  pub Element : Type 0
  pub Hash : Type 0
  pub zero_hash : Hash
  pub hash_element : Element → ℕ → Hash
  pub hash_pair : Hash → Hash → ℕ → Hash
  pub same : Hash → Hash → Bool

-- The operations of the trait that a range calls.
pub record Backend (H : Hashing) : Type 1 where
  pub Store : Type 0
  pub append : Store → H.Element → List H.Hash → Result Store
  pub rewind : Store → ℕ → List ℕ → Result Store
  pub remove : Store → ℕ → Result Store
  pub get_hash : Store → ℕ → Option H.Hash
  pub get_data : Store → ℕ → Option H.Element
  pub get_from_file : Store → ℕ → Option H.Hash

-- `append` puts the hashes at the next positions and keeps the others.
pub record Appends {H : Hashing} (B : Backend H) : Type 0 where
  pub stored : B.Store → ℕ
  pub appended : B.Store → H.Element → List H.Hash → B.Store
  pub append_ok :
      (s : B.Store) (x : H.Element) (hs : List H.Hash) → B.append s x hs ≡ ok (appended s x hs)
  pub stored_append :
      (s : B.Store) (x : H.Element) (hs : List H.Hash)
      → stored (appended s x hs) ≡ stored s + length hs
  pub append_old :
      (s : B.Store) (x : H.Element) (hs : List H.Hash) (p : ℕ)
      → p ≤ stored s
      → B.get_from_file (appended s x hs) p ≡ B.get_from_file s p
  pub append_new :
      (s : B.Store) (x : H.Element) (hs : List H.Hash) (p : ℕ)
      → B.get_from_file (appended s x hs) (stored s + p + 1) ≡ get_elem? hs p
