-- ===== src/Store/Reading.antt =====
-- Reads of an append-only file of store/src/types.rs, and the file as a log.
use native.Mathlib.Nat.{lt_of_le_of_lt, mul-div_cancel, mul-le-mul_left, mul-le-mul_right}
use epic.Base.{
  ℕ, zero, suc, ◌+◌, ◌-◌, ◌*◌, ◌/◌, ◌^◌, ◌≤◌, ◌<◌, ◌≡◌, refl, sym, ap, ◌∙◌, dec_lt, false, true,
  Bool-cases, arith, List, [], ◌∷◌, none, some, length, take, get_elem?, get_elem?-append_left,
  get_elem?-append_right, length-append, length-take, ltb, leb, inl, inr,
}
use epic.Base.Bits.{u64}
use epic.Store.File.{
  AppendOnlyFile, slice, map_file, size_in_elmts, size_unsync_in_elmts, open_file, offset,
  read_from_buffer, read_from_mmap, read,
}
use epic.Store.Log.{Log, Command, view, saved_log, steps, AreAllowed, runs}
use epic.Store.Concat.{concat, take_nil, drop_nil, Sized, length-concat, slice-concat}
use epic.Store.FileLog.{StandsFor, runs-StandsFor, open-StandsFor}

get_elem?-take :
    {A : Type 0} (xs : List A) (n i : ℕ) → i < n → get_elem? (take n xs) i ≡ get_elem? xs i
get_elem?-take xs zero i h = absurd (omega arith)
get_elem?-take [] (suc n) i h = refl
get_elem?-take (x ∷ xs) (suc n) zero h = refl
get_elem?-take (x ∷ xs) (suc n) (suc i) h = get_elem?-take xs n i (omega arith)

get_elem?-none : {A : Type 0} (xs : List A) (i : ℕ) → length xs ≤ i → get_elem? xs i ≡ none
get_elem?-none [] i h = refl
get_elem?-none (x ∷ xs) zero h = absurd (omega arith)
get_elem?-none (x ∷ xs) (suc i) h = get_elem?-none xs i (omega arith)

get_elem?-some :
    {A : Type 0} (xs : List A) (i : ℕ) → i < length xs → (x : A) × (get_elem? xs i ≡ some x)
get_elem?-some [] i h = absurd (omega arith)
get_elem?-some (x ∷ xs) zero h = (x, refl)
get_elem?-some (x ∷ xs) (suc i) h = get_elem?-some xs i (omega arith)

-- The bytes of an element, none if there is none.
abbrev pub bytes_at : List (List ℕ) → ℕ → List ℕ
bytes_at xs i = elim (get_elem? xs i) [ none ↦ [] | some x ↦ x ]

module _ (size : ℕ) where
  slice_mapped :
      (bytes : List ℕ) (start : ℕ)
      → elim (map_file bytes) [ none ↦ [] | some b ↦ slice start size b ] ≡ slice start size bytes
  unfolding map_file slice
  slice_mapped (b ∷ bytes) start = refl
  slice_mapped [] start = elim (Bool-cases (ltb (length {A = ℕ} []) (u64 (start + size)))) [
    | inl e ↦ rw (slice, e) refl
    | inr e ↦ rw (slice, e, drop_nil, take_nil) refl
  ]

  mapped-slice :
      (f : AppendOnlyFile) (start : ℕ)
      → f.mmap ≡ map_file f.content
      → read_from_mmap size f start ≡ slice start size f.content
  unfolding read_from_mmap
  mapped-slice f start e = rw (read_from_mmap, e) (slice_mapped f.content start)

  length-view : (l : Log) → l.kept ≤ length l.saved → length (view l) ≡ l.kept + length l.pending
  unfolding view
  length-view l h =
      omega (arith, length-append (take l.kept l.saved) l.pending, length-take l.kept l.saved)

  pub size_unsync-view :
      (f : AppendOnlyFile) (l : Log)
      → 0 < size
      → StandsFor size f l
      → size_unsync_in_elmts size f ≡ length (view l)
  unfolding size_unsync_in_elmts
  size_unsync-view f l pos r =
      let len : length f.buffer ≡ length l.pending * size =
        ap length r.buffer_pending ∙ length-concat size l.pending r.pending_sized in
      let count : length f.buffer / size ≡ length l.pending =
        rw len (mul-div_cancel (length l.pending) pos) in
      let few = r.few in
      let kept_le = r.kept_le in
      let all = length l.saved + length l.pending + 1 in
      let le : all * 1 ≤ all * size = mul-le-mul_left all pos in
      let start = r.start_kept in
      rw (size_unsync_in_elmts, count, start, length-view l kept_le)
        (omega (arith, le, few, kept_le))

  -- The offset of an element among few enough does not wrap.
  offset_few : (n i : ℕ) → i ≤ n → n * size < 2 ^ 64 → offset size i ≡ i * size
  unfolding offset
  offset_few n i h few = let le : i * size ≤ n * size = mul-le-mul_right size h in omega (arith, le)

  read-some :
      (f : AppendOnlyFile) (l : Log) (i : ℕ) {x : List ℕ}
      → 0 < size
      → StandsFor size f l
      → leb (size_unsync_in_elmts size f) i ≡ false
      → i < length (view l)
      → get_elem? (view l) i ≡ some x
      → read size f i ≡ x
  unfolding read read_from_buffer view
  read-some f l i {x} pos r go lt at =
      let few = r.few in
      let kept_le = r.kept_le in
      let start = r.start_kept in
      let all = length l.saved + length l.pending + 1 in
      let saved_few : length l.saved * size < 2 ^ 64 =
        lt_of_le_of_lt (mul-le-mul_right {m = length l.saved} {n = all} size (omega arith)) few in
      let pending_few : length l.pending * size < 2 ^ 64 =
        lt_of_le_of_lt (mul-le-mul_right {m = length l.pending} {n = all} size (omega arith)) few in
      let count = length-view l kept_le in
      let cut = length-take l.kept l.saved in
      let here : offset size i ≡ i * size = offset_few all i (omega (arith, count, lt)) few in
      elim (dec_lt i l.kept) [
        | yes k ↦
            let front : ltb i f.buffer_start_pos ≡ true = ground arith in
            let found : get_elem? l.saved i ≡ some x =
              sym (
                get_elem?-append_left (take l.kept l.saved) l.pending i (omega (arith, cut))
                ∙ get_elem?-take l.saved l.kept i k)
              ∙ at in
            rw (read, go, front, here, mapped-slice f (i * size) r.mapped, r.content_saved)
              (slice-concat size l.saved i r.saved_sized saved_few found)
        | no k ↦
            let back : ltb i f.buffer_start_pos ≡ false = ground arith in
            let j = i - l.kept in
            let found : get_elem? l.pending j ≡ some x =
              sym (get_elem?-append_right (take l.kept l.saved) l.pending i j (omega (arith, cut)))
              ∙ at in
            let there : offset size l.kept ≡ l.kept * size =
              offset_few all l.kept (omega arith) few in
            let split : i ≡ l.kept + j = omega arith in
            let apart : i * size ≡ l.kept * size + j * size =
              ap {B = ℕ} (λ z. z * size) split ∙ omega arith in
            let gap : i * size - l.kept * size ≡ j * size = omega (arith, apart) in
            rw (read, go, back, read_from_buffer, here, start, there, gap, r.buffer_pending)
              (slice-concat size l.pending j r.pending_sized pending_few found)
      ]

  pub read-view :
      (f : AppendOnlyFile) (l : Log) (i : ℕ)
      → 0 < size
      → StandsFor size f l
      → read size f i ≡ bytes_at (view l) i
  unfolding read
  read-view f l i pos r =
      let count = size_unsync-view f l pos r in
      elim (dec_lt i (length (view l))) [
        | no h ↦
            let stop : leb (size_unsync_in_elmts size f) i ≡ true = ground (arith, count) in
            rw (read, stop, bytes_at, get_elem?-none (view l) i (omega arith)) refl
        | yes h ↦
            let go : leb (size_unsync_in_elmts size f) i ≡ false = ground (arith, count) in
            let (x, at) = get_elem?-some (view l) i h in
            rw (bytes_at, at) (read-some f l i pos r go h at)
      ]

  size-saved :
      (f : AppendOnlyFile) (l : Log)
      → 0 < size
      → StandsFor size f l
      → size_in_elmts size f ≡ length l.saved
  unfolding size_in_elmts
  size-saved f l pos r =
      let len : length f.content ≡ length l.saved * size =
        ap length r.content_saved ∙ length-concat size l.saved r.saved_sized in
      rw (size_in_elmts, len) (mul-div_cancel (length l.saved) pos)

  -- A file is opened on elements of one size, and appended to, rewound while nothing waits to what is
  -- kept, flushed and discarded, in any order, with fewer than 2 ^ 64 bytes in all. Then it is as the
  -- log tells: the elements on the disk are those saved, one after the other; the sizes in elements
  -- are those of what is saved and of what the log shows; and each read gives the bytes that the log
  -- shows there, none past the end.
  pub runs-view :
      (xs : List (List ℕ)) (cs : List Command)
      → 0 < size
      → Sized size xs
      → (length xs + 1) * size < 2 ^ 64
      → AreAllowed size cs (saved_log xs)
      → ((runs size cs (open_file size (concat xs))).content
          ≡ concat (steps cs (saved_log xs)).saved)
        × (size_in_elmts size (runs size cs (open_file size (concat xs)))
            ≡ length (steps cs (saved_log xs)).saved)
        × (size_unsync_in_elmts size (runs size cs (open_file size (concat xs)))
            ≡ length (view (steps cs (saved_log xs))))
        × ((i : ℕ)
            → read size (runs size cs (open_file size (concat xs))) i
              ≡ bytes_at (view (steps cs (saved_log xs))) i)
  runs-view xs cs pos sized few allowed =
      let f = runs size cs (open_file size (concat xs)) in
      let l = steps cs (saved_log xs) in
      let r =
        runs-StandsFor size cs (open_file size (concat xs)) (saved_log xs) pos
          (open-StandsFor size xs pos sized few) allowed in
      (
        r.content_saved,
        size-saved f l pos r,
        size_unsync-view f l pos r,
        λ i. read-view f l i pos r,
      )
