-- ===== src/Store/FileLog.antt =====
-- An append-only file of store/src/types.rs keeps what its log promises.
use native.Mathlib.Nat.{lt_of_le_of_lt, mul-div_cancel, mul-le-mul_left, mul-le-mul_right}
use mathlib.Core.List.{append-nil}
use epic.Base.{
  ℕ, suc, ◌+◌, ◌-◌, ◌*◌, ◌/◌, ◌^◌, ◌≤◌, ◌<◌, ◌≡◌, refl, ap, ◌∙◌, dec_lt, false, true, arith, ◌⊎◌,
  inl, inr, List, [], ◌∷◌, ◌++◌, length, take, length-append, length-take, ltb, ◌==◌, if◌then◌else◌,
}
use epic.Base.Bits.{u64}
use epic.Base.Predicates.{All-append, All-take}
use epic.Store.File.{
  AppendOnlyFile, set_len, append, rewind, discard, map_file, size_in_elmts, init, open_file,
  offset, truncate, flush,
}
use epic.Store.Log.{
  Log, Command, appending, rewinding, flushing, discarding, view, saved_log, step, steps, IsAllowed,
  AreAllowed, run, runs,
}
use epic.Store.Concat.{concat, concat-append, take_all, Sized, length-concat, take-concat}

module _ (size : ℕ) where
  abbrev pub IsBak : ℕ → ℕ → ℕ → Type 0
  IsBak bak kept len = ((bak ≡ 0) × (kept ≡ len)) ⊎ ((bak ≡ len) × (0 < len))

  rewound :
      (bak start kept n len : ℕ)
      → start ≡ kept
      → n ≤ kept
      → kept ≤ len
      → IsBak bak kept len
      → IsBak (if bak == 0 then start else bak) n len
  rewound bak start kept n len s le lk (inr (b, h)) = inr (ground arith, h)
  rewound bak start kept n len s le lk (inl (b, k)) = elim (dec_lt 0 len) [
    | yes h ↦ inr (ground arith, h)
    | no h ↦ inl (ground arith, omega arith)
  ]

  restored :
      (bak start kept len : ℕ)
      → start ≡ kept
      → IsBak bak kept len
      → (if ltb 0 bak then bak else start) ≡ len
  restored bak start kept len s (inl (b, k)) = ground arith
  restored bak start kept len s (inr (b, h)) = ground arith

  -- A file that stands for a log.
  pub record StandsFor (f : AppendOnlyFile) (l : Log) : Type 0 where
    pub content_saved : f.content ≡ concat l.saved
    pub mapped : f.mmap ≡ map_file f.content
    pub buffer_pending : f.buffer ≡ concat l.pending
    pub start_kept : f.buffer_start_pos ≡ l.kept
    pub bak_saved : IsBak f.buffer_start_pos_bak l.kept (length l.saved)
    pub kept_le : l.kept ≤ length l.saved
    pub saved_sized : Sized size l.saved
    pub pending_sized : Sized size l.pending
    pub few : (length l.saved + length l.pending + 1) * size < 2 ^ 64

  run-append :
      (x : List ℕ) (f : AppendOnlyFile) (l : Log)
      → StandsFor f l
      → IsAllowed size (appending x) l
      → StandsFor (append x f) (step (appending x) l)
  unfolding append step IsAllowed concat
  run-append x f l r allowed =
      let count = length-append l.pending (x ∷ []) in
      let below = allowed.1 in
      let more : length l.saved + (length l.pending + 1) + 1
          ≡ length l.saved + length l.pending + 2 =
        omega arith in
      record {
        content_saved = r.content_saved;
        mapped = r.mapped;
        buffer_pending = rw (concat-append l.pending (x ∷ []), r.buffer_pending, append-nil) refl;
        start_kept = r.start_kept;
        bak_saved = r.bak_saved;
        kept_le = r.kept_le;
        saved_sized = r.saved_sized;
        pending_sized =
            All-append (λ y. length y ≡ size) l.pending (x ∷ []) r.pending_sized (allowed.0, tt);
        few = rw (count, more) below;
      }

  run-rewind :
      (n : ℕ) (f : AppendOnlyFile) (l : Log)
      → StandsFor f l
      → IsAllowed size (rewinding n) l
      → StandsFor (rewind n f) (step (rewinding n) l)
  unfolding rewind step IsAllowed
  run-rewind n f l r allowed =
      let le = allowed.0 in
      let kept_le = r.kept_le in
      record {
        content_saved = r.content_saved;
        mapped = r.mapped;
        buffer_pending = r.buffer_pending;
        start_kept = refl;
        bak_saved =
            rewound f.buffer_start_pos_bak f.buffer_start_pos l.kept n (length l.saved) r.start_kept
              le kept_le r.bak_saved;
        kept_le = omega arith;
        saved_sized = r.saved_sized;
        pending_sized = r.pending_sized;
        few = r.few;
      }

  run-discard :
      (f : AppendOnlyFile) (l : Log) → StandsFor f l → StandsFor (discard f) (step discarding l)
  unfolding discard step saved_log concat
  run-discard f l r =
      let few = r.few in
      let fewer : length l.saved + 0 + 1 ≤ length l.saved + length l.pending + 1 = omega arith in
      record {
        content_saved = r.content_saved;
        mapped = r.mapped;
        buffer_pending = refl;
        start_kept =
            restored f.buffer_start_pos_bak f.buffer_start_pos l.kept (length l.saved) r.start_kept
              r.bak_saved;
        bak_saved = inl (refl, refl);
        kept_le = omega arith;
        saved_sized = r.saved_sized;
        pending_sized = tt;
        few = lt_of_le_of_lt (mul-le-mul_right size fewer) few;
      }

  set_len-concat :
      (xs : List (List ℕ)) (k : ℕ)
      → k ≤ length xs
      → Sized size xs
      → set_len (k * size) (concat xs) ≡ concat (take k xs)
  unfolding set_len
  set_len-concat xs k le h =
      let len = length-concat size xs h in
      let within : k * size ≤ length xs * size = mul-le-mul_right size le in
      let no_more : k * size - length (concat xs) ≡ 0 = omega (arith, len, within) in
      rw (set_len, no_more, take-concat size xs k h, append-nil) refl

  truncate_kept :
      (f : AppendOnlyFile) (l : Log)
      → StandsFor f l
      → truncate size f ≡ concat (take l.kept l.saved)
  unfolding truncate offset set_len
  truncate_kept f l r = elim (r.bak_saved) [
    | inl (b, k) ↦
        let keep : ltb 0 f.buffer_start_pos_bak ≡ false = ground arith in
        rw (truncate, keep, k, take_all l.saved) r.content_saved
    | inr (b, h) ↦
        let cut : ltb 0 f.buffer_start_pos_bak ≡ true = ground arith in
        let start = r.start_kept in
        let few = r.few in
        let kept_le = r.kept_le in
        let all : l.kept * size ≤ length l.saved * size = mul-le-mul_right size kept_le in
        let there : (length l.saved) * size ≤ (length l.saved + length l.pending + 1) * size =
          mul-le-mul_right size (omega arith) in
        let keeps : set_len (l.kept * size) f.content ≡ concat (take l.kept l.saved) =
          rw (r.content_saved) (set_len-concat l.saved l.kept kept_le r.saved_sized) in
        elim (dec_lt 0 l.kept) [
          | no n ↦
              let zero_kept : l.kept ≡ 0 = omega arith in
              let at_start : (f.buffer_start_pos == 0) ≡ true = ground arith in
              let no_bytes : l.kept * size ≡ 0 = rw zero_kept (omega arith) in
              rw (truncate, cut, at_start) (rw no_bytes at keeps)
          | yes y ↦
              let past : (f.buffer_start_pos == 0) ≡ false = ground arith in
              let before = f.buffer_start_pos - 1 in
              let one_more : l.kept ≡ suc before = omega arith in
              let bytes : l.kept * size ≡ before * size + size = rw one_more (omega arith) in
              let ends : u64 (u64 (before * size) + size) ≡ l.kept * size = omega arith in
              rw (truncate, cut, past, offset, ends) keeps
        ]
  ]

  run-flush :
      (f : AppendOnlyFile) (l : Log)
      → 0 < size
      → StandsFor f l
      → StandsFor (flush size f) (step flushing l)
  unfolding flush step saved_log concat view
  run-flush f l pos r =
      let few = r.few in
      let kept_le = r.kept_le in
      let xs = take l.kept l.saved ++ l.pending in
      let sized : Sized size xs =
        All-append (λ y. length y ≡ size) (take l.kept l.saved) l.pending
          (All-take (λ y. length y ≡ size) l.kept l.saved r.saved_sized) r.pending_sized in
      let bytes : truncate size f ++ f.buffer ≡ concat xs =
        rw (truncate_kept f l r, r.buffer_pending, concat-append (take l.kept l.saved) l.pending)
          refl in
      let len : length (truncate size f ++ f.buffer) ≡ length xs * size =
        ap length bytes ∙ length-concat size xs sized in
      let count = length-append (take l.kept l.saved) l.pending in
      let cut = length-take l.kept l.saved in
      let fewer : length xs + 0 + 1 ≤ length l.saved + length l.pending + 1 =
        omega (arith, count, cut) in
      record {
        content_saved = bytes;
        mapped = refl;
        buffer_pending = refl;
        start_kept = rw len (mul-div_cancel (length xs) pos);
        bak_saved = inl (refl, refl);
        kept_le = omega arith;
        saved_sized = sized;
        pending_sized = tt;
        few = lt_of_le_of_lt (mul-le-mul_right size fewer) few;
      }

  run-StandsFor :
      (c : Command) (f : AppendOnlyFile) (l : Log)
      → 0 < size
      → StandsFor f l
      → IsAllowed size c l
      → StandsFor (run size c f) (step c l)
  unfolding run
  run-StandsFor (appending x) f l pos r allowed = run-append x f l r allowed
  run-StandsFor (rewinding n) f l pos r allowed = run-rewind n f l r allowed
  run-StandsFor flushing f l pos r allowed = run-flush f l pos r
  run-StandsFor discarding f l pos r allowed = run-discard f l r

  pub runs-StandsFor :
      (cs : List Command) (f : AppendOnlyFile) (l : Log)
      → 0 < size
      → StandsFor f l
      → AreAllowed size cs l
      → StandsFor (runs size cs f) (steps cs l)
  unfolding runs steps AreAllowed
  runs-StandsFor [] f l pos r allowed = r
  runs-StandsFor (c ∷ cs) f l pos r allowed =
      runs-StandsFor cs (run size c f) (step c l) pos (run-StandsFor c f l pos r (allowed.0))
        (allowed.1)

  open-opened :
      (bytes : List ℕ) (n : ℕ)
      → 0 < size
      → length bytes ≡ n * size
      → open_file size bytes ≡ record {
        content = bytes;
        mmap = map_file bytes;
        buffer = [];
        buffer_start_pos = n;
        buffer_start_pos_bak = 0;
      }
  unfolding open_file init size_in_elmts map_file
  open-opened [] n pos e =
      let le : n * 1 ≤ n * size = mul-le-mul_left n pos in
      let no_elmts : n ≡ 0 = omega (arith, le) in rw no_elmts refl
  open-opened (b ∷ bytes) n pos e =
      let count : length (b ∷ bytes) / size ≡ n = rw e (mul-div_cancel n pos) in
      let some_bytes : (length (b ∷ bytes) == 0) ≡ false = ground arith in
      rw (open_file, init, some_bytes, size_in_elmts, count) refl

  pub open-StandsFor :
      (xs : List (List ℕ))
      → 0 < size
      → Sized size xs
      → (length xs + 1) * size < 2 ^ 64
      → StandsFor (open_file size (concat xs)) (saved_log xs)
  unfolding saved_log concat
  open-StandsFor xs pos h few =
      rw (open-opened (concat xs) (length xs) pos (length-concat size xs h)) (record {
        content_saved = refl;
        mapped = refl;
        buffer_pending = refl;
        start_kept = refl;
        bak_saved = inl (refl, refl);
        kept_le = omega arith;
        saved_sized = h;
        pending_sized = tt;
        few = let e : length xs + 0 + 1 ≡ length xs + 1 = omega arith in rw e few;
      })
