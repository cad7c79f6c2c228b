-- ===== src/Chain/Errors.antt =====
-- `ErrorKind` of chain/src/error.rs, and checks that may fail with it or panic.
use epic.Base.{Bool, true, false, Option, none, some, ◌≡◌, refl, sym, subst, ◌↔◌}
use epic.Base.{ℕ, List}
use epic.Ser as ser
use epic.Transaction.Errors as errors
use epic.Transaction.Errors.{CommittedError}
use epic.Block.Checks as block
use epic.Base.Results.{Result, ok, err}

-- `epic_store::Error`, whose texts are left out, as below; an error of another library stands by a
-- number.
pub data StoreError : Type 0 where
  not_found : StoreError
  lmdb_err : ℕ → StoreError
  ser_error : StoreError

pub data ErrorKind : Type 0 where
  unfit orphan difficulty_too_low difficulty_too_high wrong_total_difficulty low_edgebits :
      ErrorKind
  invalid_scaling invalid_pow old_block : ErrorKind
  invalid_block_proof : block.Error → ErrorKind
  invalid_block_time invalid_block_height invalid_root invalid_mmr_size : ErrorKind
  keychain secp : ℕ → ErrorKind
  already_spent duplicate_commitment : List ℕ → ErrorKind
  immature_coinbase merkle_proof output_not_found rangeproof_not_found tx_kernel_not_found :
      ErrorKind
  output_spent : ErrorKind
  invalid_block_version : ℕ → ErrorKind
  invalid_tx_hash_set : ErrorKind
  store_err : StoreError → ErrorKind
  file_read_err : ErrorKind
  ser_err : ser.Error → ErrorKind
  tx_hash_set_err tx_lock_height genesis_block_required : ErrorKind
  transaction : errors.Error → ErrorKind
  other : ErrorKind
  committed : CommittedError → ErrorKind
  stopped bitmap invalid_sort_algo there_is_not_policy policy_is_not_allowed invalid_seed :
      ErrorKind

-- The result of code that may panic, which is `none`.
abbrev pub Checked : Type 0 → Type 0
Checked A = Option (Result ErrorKind A)

module _ {A B : Type 0} where
  infixl 5 ◌>>=◌
  abbrev pub ◌>>=◌ : Checked A → (A → Checked B) → Checked B
  none >>= next = none
  some (err e) >>= next = some (err e)
  some (ok a) >>= next = next a

module _ {A : Type 0} where
  infixl 5 ◌>>◌
  abbrev pub ◌>>◌ : Checked (Unit {0}) → Checked A → Checked A
  m >> next = m >>= λ u. next

-- An error unless the test holds.
abbrev pub require : Bool → ErrorKind → Checked (Unit {0})
require true e = some (ok tt)
require false e = some (err e)

-- A value that the code panics without.
abbrev pub unwrap : {A : Type 0} → Option A → Checked A
unwrap none = none
unwrap (some a) = some (ok a)

-- A check goes well.
abbrev pub Passes : Checked (Unit {0}) → Type 0
Passes m = m ≡ some (ok tt)

pub require-Passes : (b : Bool) (e : ErrorKind) → Passes (require b e) ↔ (b ≡ true)
require-Passes true e = (λ h. refl, λ h. refl)
require-Passes false e = (λ h. cc, λ h. cc)

pub >>-Passes : (m n : Checked (Unit {0})) → Passes (m >> n) ↔ (Passes m × Passes n)
>>-Passes none n = (λ h. cc, λ h. cc (h.0))
>>-Passes (some (err e)) n = (λ h. cc, λ h. cc (h.0))
>>-Passes (some (ok u)) n = (λ h. (refl, h), λ h. h.1)

pub >>=-Passes :
    {A : Type 0} (m : Checked A) (next : A → Checked (Unit {0}))
    → Passes (m >>= next) ↔ ((a : A) × (m ≡ some (ok a)) × Passes (next a))
>>=-Passes none next = (λ h. cc, λ h. cc (h.1))
>>=-Passes (some (err e)) next = (λ h. cc, λ h. cc (h.1))
>>=-Passes (some (ok a)) next = (
  λ h. (a, refl, h),
  λ h. (let (x, e, p) = h in let same : a ≡ x = cc e in subst (λ z. Passes (next z)) (sym same) p),
)

-- Equivalences side by side, and one after the other.
pub both : {P Q R S : Type 0} → (P ↔ Q) → (R ↔ S) → ((P × R) ↔ (Q × S))
both f g = (λ h. (f.0 h.0, g.0 h.1), λ h. (f.1 h.0, g.1 h.1))

infixr 6 ◌then_iff◌
pub ◌then_iff◌ : {P Q R : Type 0} → (P ↔ Q) → (Q ↔ R) → (P ↔ R)
f then_iff g = (λ h. g.0 (f.0 h), λ h. f.1 (g.1 h))
