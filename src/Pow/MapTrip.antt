-- ===== src/Pow/MapTrip.antt =====
-- The maps are read back from their bytes.
use epic.Base.{
  ℕ, ◌<◌, ◌≤◌, ◌≡◌, ◌^◌, refl, ap, ◌∙◌, arith, List, [], ◌∷◌, ◌++◌, some, length, Option-cases, inl,
  inr,
}
use mathlib.Core.Path.{fun_ext}
use epic.Base.Results.{ok}
use epic.Consensus.Retarget.{
  PoWType, cuckaroo, cuckatoo, random_x, prog_pow, Difficulty, insert, same_pow,
}
use epic.Ser.{Packages, ReadsBack, ◌>>=◌, write_uint, read_uint}
use epic.Base.Predicates.{All}
use epic.Ser.Codec.{bind-append, read_uint-write_uint}
use epic.Pow.Maps.{
  to_u8, try_from, empty_map, entry, entries, write_entries, write_map, read_entries, read_map,
}

-- The inserts of the loop.
unfoldable pub insert_all : List (PoWType × ℕ) → Difficulty → Difficulty
insert_all [] result = result
insert_all ((pow, n) ∷ rest) result = insert_all rest (insert pow n result)

insert_all-entries_at :
    (num : Difficulty) (pow : PoWType) → insert_all (entries num) empty_map pow ≡ num pow
unfolding insert_all entries entry insert same_pow empty_map
insert_all-entries_at num cuckaroo = ground arith
insert_all-entries_at num cuckatoo = ground arith
insert_all-entries_at num random_x = ground arith
insert_all-entries_at num prog_pow = ground arith

insert_all-entries : (num : Difficulty) → insert_all (entries num) empty_map ≡ num
insert_all-entries num = fun_ext (insert_all-entries_at num)

length-entries : (num : Difficulty) → length (entries num) ≤ 4
unfolding entries entry
length-entries num = ground arith

-- Every number of a map fits.
abbrev pub Fits : ℕ → Difficulty → Type 0
Fits bound num = (pow : PoWType) (n : ℕ) → num pow ≡ some n → n < bound

All-append : {A : Type 0} (P : A → Type 0) (xs ys : List A) → All P xs → All P ys → All P (xs ++ ys)
All-append P [] ys a b = b
All-append P (x ∷ xs) ys (a, more) b = (a, All-append P xs ys more b)

entry-Fits :
    (bound : ℕ) (num : Difficulty) (pow : PoWType)
    → Fits bound num
    → All (λ e. e.1 < bound) (entry num pow)
unfolding entry
entry-Fits bound num pow fits = elim (Option-cases (num pow)) [
  | inl none_here ↦ rw (none_here, entry) tt
  | inr (n, here) ↦ rw (here, entry) (fits pow n here, tt)
]

entries-Fits :
    (bound : ℕ) (num : Difficulty) → Fits bound num → All (λ e. e.1 < bound) (entries num)
unfolding entries
entries-Fits bound num fits =
    All-append _ (entry num cuckaroo) _ (entry-Fits bound num cuckaroo fits) (
      All-append _ (entry num cuckatoo) _ (entry-Fits bound num cuckatoo fits) (
        All-append _ (entry num random_x) _ (entry-Fits bound num random_x fits)
          (entry-Fits bound num prog_pow fits)))

module _ (p : Packages) (laws : ReadsBack p) (width : ℕ) where
  to_u8-lt : (pow : PoWType) → to_u8 pow < 256 ^ 1
  unfolding to_u8
  to_u8-lt cuckaroo = omega arith
  to_u8-lt cuckatoo = omega arith
  to_u8-lt random_x = omega arith
  to_u8-lt prog_pow = omega arith

  try_from-to_u8 : (pow : PoWType) → try_from (to_u8 pow) ≡ some pow
  unfolding try_from to_u8
  try_from-to_u8 cuckaroo = refl
  try_from-to_u8 cuckatoo = refl
  try_from-to_u8 random_x = refl
  try_from-to_u8 prog_pow = refl

  read_entries-write_entries :
      (es : List (PoWType × ℕ)) (result : Difficulty) (rest : List ℕ)
      → All (λ e. e.1 < 256 ^ width) es
      → read_entries p width (length es) result (write_entries p width es ++ rest)
        ≡ ok (insert_all es result, rest)
  unfolding read_entries write_entries insert_all
  read_entries-write_entries [] result rest fits = refl
  read_entries-write_entries ((pow, n) ∷ es) result rest (fit, fits) =
      bind-append (read_uint p 1) _ (write_uint p 1 (to_u8 pow)) _ rest (to_u8 pow)
        (read_uint-write_uint p laws 1 (to_u8 pow) _ (to_u8-lt pow))
      ∙ bind-append (read_uint p width) _ (write_uint p width n) _ rest n
          (read_uint-write_uint p laws width n _ fit)
      ∙ rw (try_from-to_u8 pow, ◌>>=◌)
          (read_entries-write_entries es (insert pow n result) rest fits)

  pub read_map-write_map :
      (num : Difficulty) (rest : List ℕ)
      → Fits (256 ^ width) num
      → read_map p width (write_map p width num ++ rest) ≡ ok (num, rest)
  unfolding read_map write_map
  read_map-write_map num rest fits =
      bind-append (read_uint p 8) _ (write_uint p 8 (length (entries num))) _ rest
        (length (entries num))
        (read_uint-write_uint p laws 8 (length (entries num)) _ (omega (arith, length-entries num)))
      ∙ read_entries-write_entries (entries num) empty_map rest
          (entries-Fits (256 ^ width) num fits)
      ∙ ap (λ (m : Difficulty). ok (m, rest)) (insert_all-entries num)
