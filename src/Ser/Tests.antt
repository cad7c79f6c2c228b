-- ===== src/Ser/Tests.antt =====
-- A big-endian byte order and a digest that computes, and runs of the readers and writers.
use epic.Base.{
  ℕ, zero, suc, ◌+◌, ◌*◌, ◌/◌, ◌%◌, ◌<◌, ◌^◌, ◌≡◌, refl, arith, List, [], ◌∷◌, ◌++◌, length,
  length-append,
}
use epic.Base.Results.{ok, err}
use epic.Ser.{
  Packages, ReadsBack, take_exact, read_exact, read_fixed_bytes, write_uint, read_uint, write_bytes,
  read_bytes_len_prefix, expect_u8, collect, read_multi, verify_sorted_and_unique, unexpected_data,
  count_error, sort_error, duplicate_error,
}

unfoldable pub put_be : ℕ → ℕ → List ℕ
put_be zero n = []
put_be (suc w) n = put_be w (n / 256) ++ n % 256 ∷ []

unfoldable pub get_be : ℕ → List ℕ → ℕ
get_be acc [] = acc
get_be acc (b ∷ bs) = get_be (acc * 256 + b) bs

abbrev pub big_endian : Packages
big_endian = record { put_uint = put_be; get_uint = get_be 0; digest = get_be 1 }

get_be-append :
    (acc : ℕ) (xs : List ℕ) (b : ℕ) → get_be acc (xs ++ b ∷ []) ≡ get_be acc xs * 256 + b
unfolding get_be
get_be-append acc [] b = refl
get_be-append acc (x ∷ xs) b = get_be-append (acc * 256 + x) xs b

length-put_be : (w n : ℕ) → length (put_be w n) ≡ w
unfolding put_be
length-put_be zero n = refl
length-put_be (suc w) n =
    omega (arith, length-append (put_be w (n / 256)) (n % 256 ∷ []), length-put_be w (n / 256))

get_be-put_be : (w n : ℕ) → n < 256 ^ w → get_be 0 (put_be w n) ≡ n
unfolding put_be get_be
get_be-put_be zero n fits = omega (arith, fits)
get_be-put_be (suc w) n fits = omega (
  arith,
  get_be-append 0 (put_be w (n / 256)) (n % 256),
  get_be-put_be w (n / 256) (omega (arith, fits)),
)

pub big_endian-ReadsBack : ReadsBack big_endian
big_endian-ReadsBack = record { length_put = length-put_be; get_put = get_be-put_be }

write_uint_test : write_uint big_endian 4 70000 ≡ 0 ∷ 1 ∷ 17 ∷ 112 ∷ []
unfolding write_uint put_be
write_uint_test = refl

read_uint_test : read_uint big_endian 2 (1 ∷ 4 ∷ 9 ∷ []) ≡ ok (260, 9 ∷ [])
unfolding read_uint read_exact take_exact get_be
read_uint_test = refl

read_bytes_test :
    read_bytes_len_prefix big_endian (write_bytes big_endian (5 ∷ 6 ∷ []) ++ 7 ∷ [])
    ≡ ok (5 ∷ 6 ∷ [], 7 ∷ [])
unfolding read_bytes_len_prefix read_fixed_bytes read_uint read_exact take_exact get_be write_bytes
    write_uint put_be
read_bytes_test = refl

expect_u8_test : expect_u8 big_endian 3 (4 ∷ []) ≡ err (unexpected_data (3 ∷ []) (4 ∷ []))
unfolding expect_u8 read_uint read_exact take_exact get_be
expect_u8_test = refl

read_multi_test : read_multi (read_uint big_endian 1) 3 (1 ∷ 2 ∷ []) ≡ err count_error
unfolding read_multi collect read_uint read_exact take_exact get_be
read_multi_test = refl

sort_error_test : verify_sorted_and_unique (1 ∷ 3 ∷ 2 ∷ []) ≡ err sort_error
unfolding verify_sorted_and_unique
sort_error_test = refl

duplicate_error_test : verify_sorted_and_unique (1 ∷ 3 ∷ 3 ∷ []) ≡ err duplicate_error
unfolding verify_sorted_and_unique
duplicate_error_test = refl
