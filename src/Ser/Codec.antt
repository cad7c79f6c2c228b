-- ===== src/Ser/Codec.antt =====
-- Round trips of the readers and writers of core/src/ser.rs.
use epic.Base.Predicates.{All}
use epic.Base.{ℕ, ◌<◌, ◌≤◌, ◌≡◌, ◌^◌, refl, ap, arith, List, [], ◌∷◌, ◌++◌, some, length}
use mathlib.Core.List.{append_assoc}
use epic.Base.Results.{Result, ok, err}
use epic.Ser.{
  Packages, ReadsBack, Reader, ◌>>=◌, take_exact, read_exact, read_fixed_bytes, write_uint,
  read_uint, collect, read_multi, write_vec, Error,
}

-- Reading what was written gives the value back and leaves what follows.
abbrev pub RoundTrips : {A : Type 0} → (A → List ℕ) → Reader A → (A → Type 0) → Type 0
RoundTrips {A} write read IsValid =
    (a : A) (rest : List ℕ) → IsValid a → read (write a ++ rest) ≡ ok (a, rest)

take_exact-append : (xs rest : List ℕ) → take_exact (length xs) (xs ++ rest) ≡ some (xs, rest)
unfolding take_exact
take_exact-append [] rest = refl
take_exact-append (x ∷ xs) rest = rw (take_exact-append xs rest) refl

pub read_exact-append :
    (n : ℕ) (xs rest : List ℕ) → length xs ≡ n → read_exact n (xs ++ rest) ≡ ok (xs, rest)
unfolding read_exact
read_exact-append n xs rest size = ground (arith, take_exact-append xs rest)

pub read_fixed_bytes-append :
    (n : ℕ) (xs rest : List ℕ)
    → n ≤ 100000
    → length xs ≡ n
    → read_fixed_bytes n (xs ++ rest) ≡ ok (xs, rest)
unfolding read_fixed_bytes
read_fixed_bytes-append n xs rest small size = ground (arith, read_exact-append n xs rest)

-- One step of a reader on what was written, and on with the rest.
pub bind-append :
    {A B : Type 0} (m : Reader A) (f : A → Reader B) (xs ys rest : List ℕ) (a : A)
    → m (xs ++ (ys ++ rest)) ≡ ok (a, ys ++ rest)
    → (m >>= f) ((xs ++ ys) ++ rest) ≡ f a (ys ++ rest)
bind-append m f xs ys rest a e = rw append_assoc (rw (e, ◌>>=◌) refl)

pub bind-last :
    {A B : Type 0} (m : Reader A) (f : A → Reader B) (xs rest : List ℕ) (a : A)
    → m (xs ++ rest) ≡ ok (a, rest)
    → (m >>= f) (xs ++ rest) ≡ f a rest
bind-last m f xs rest a e = rw (e, ◌>>=◌) refl

step-ok :
    {A B : Type 0} (o : Result Error (A × List ℕ)) (f : A → Reader B) {r : B × List ℕ}
    → elim o [ ok (a, rest) ↦ f a rest | err e ↦ err e ] ≡ ok r
    → (a : A) × (rest : List ℕ) × (o ≡ ok (a, rest)) × (f a rest ≡ ok r)
step-ok (ok (a, rest)) f h = (a, rest, refl, h)
step-ok (err e) f h = cc

-- What a reader gave came of its first step and of the rest.
pub >>=-ok :
    {A B : Type 0} (m : Reader A) (f : A → Reader B) (bs : List ℕ) {r : B × List ℕ}
    → (m >>= f) bs ≡ ok r
    → (a : A) × (rest : List ℕ) × (m bs ≡ ok (a, rest)) × (f a rest ≡ ok r)
>>=-ok m f bs h = step-ok (m bs) f h

module _ (p : Packages) (laws : ReadsBack p) where
  pub read_uint-write_uint :
      (width : ℕ) → RoundTrips (write_uint p width) (read_uint p width) (λ n. n < 256 ^ width)
  unfolding read_uint write_uint
  read_uint-write_uint width n rest fits =
      rw (read_exact-append width (p.put_uint width n) rest (laws.length_put width n), ◌>>=◌)
        (ap (λ (t : ℕ). ok (t, rest)) (laws.get_put width n fits))

module _ {A : Type 0} (write : A → List ℕ) (read : Reader A) (IsValid : A → Type 0)
    (back : RoundTrips write read IsValid) where
  collect-write_vec :
      (xs : List A) (rest : List ℕ)
      → All IsValid xs
      → collect read (length xs) (write_vec write xs ++ rest) ≡ (xs, rest)
  unfolding collect write_vec
  collect-write_vec [] rest valid = refl
  collect-write_vec (x ∷ xs) rest (first, others) =
      rw append_assoc (
        ground (arith, back x (write_vec write xs ++ rest) first, collect-write_vec xs rest others))

  pub read_multi-write_vec :
      (n : ℕ) (xs : List A) (rest : List ℕ)
      → length xs ≡ n
      → n ≤ 1000000
      → All IsValid xs
      → read_multi read n (write_vec write xs ++ rest) ≡ ok (xs, rest)
  unfolding read_multi
  read_multi-write_vec n xs rest size few valid = ground (arith, collect-write_vec xs rest valid)
