-- ===== src/Transaction/CutThrough/InPlace.antt =====
-- The loop in place against the merge.
use mathlib.Core.List.{append_assoc}
use epic.Base.{
  ℕ, zero, suc, ◌+◌, ◌-◌, ◌≤◌, ◌≡◌, refl, sym, ap, ◌∙◌, arith, List, [], ◌∷◌, ◌++◌, none, some,
  get_elem?, set, take, drop, length, length-append, get_elem?-append_right,
}
use epic.Transaction.CutThrough.{Cutting, cut_loop, drain, drain_both}
use epic.Transaction.CutThrough.Merge.{cut}

module _ {A : Type 0} where
  set-append_right :
      (xs ys : List A) (i : ℕ) (a : A) → set (xs ++ ys) (length xs + i) a ≡ xs ++ set ys i a
  set-append_right [] ys i a = ap (λ (n : ℕ). set ys n a) (omega arith)
  set-append_right (x ∷ xs) ys i a =
      let next : suc (length xs) + i ≡ suc (length xs + i) = omega arith in
      rw next (ap (λ (zs : List A). x ∷ zs) (set-append_right xs ys i a))

  take-append_left : (xs ys : List A) → take (length xs) (xs ++ ys) ≡ xs
  take-append_left [] ys = refl
  take-append_left (x ∷ xs) ys = ap (λ (zs : List A). x ∷ zs) (take-append_left xs ys)

  drop-append_left : (xs ys : List A) → drop (length xs) (xs ++ ys) ≡ ys
  drop-append_left [] ys = refl
  drop-append_left (x ∷ xs) ys = drop-append_left xs ys

-- A vector in the loop: what is kept, places that are free, and what is still to be read.
pub record Progress {A : Type 0} (kept rest v : List A) (idx ncut : ℕ) : Type 0 where
  pub free : List A
  pub whole : v ≡ kept ++ (free ++ rest)
  pub size : length free ≡ ncut
  pub place : idx ≡ length kept + ncut

module _ {A : Type 0} (kept rest v : List A) (idx ncut : ℕ) where
  get-Progress : (x : A) → Progress kept (x ∷ rest) v idx ncut → get_elem? v idx ≡ some x
  get-Progress x pr =
      rw (pr.whole, ← append_assoc kept pr.free (x ∷ rest))
        (get_elem?-append_right (kept ++ pr.free) (x ∷ rest) idx 0
          (omega (arith, pr.place, pr.size, length-append kept pr.free)))

  get-Progress_end : Progress kept [] v idx ncut → get_elem? v idx ≡ none
  get-Progress_end pr =
      rw (pr.whole, ← append_assoc kept pr.free [])
        (get_elem?-append_right (kept ++ pr.free) [] idx 0
          (omega (arith, pr.place, pr.size, length-append kept pr.free)))

  skip-Progress :
      (x : A) → Progress kept (x ∷ rest) v idx ncut → Progress kept rest v (idx + 1) (ncut + 1)
  skip-Progress x pr = record {
    free = pr.free ++ x ∷ [];
    whole = pr.whole ∙ ap (λ (zs : List A). kept ++ zs) (sym (append_assoc pr.free (x ∷ []) rest));
    size = omega (arith, length-append pr.free (x ∷ []), pr.size);
    place = omega (arith, pr.place);
  }

  drain-Progress : Progress kept rest v idx ncut → drain v idx ncut ≡ kept ++ rest
  unfolding drain
  drain-Progress pr =
      let front : idx - ncut ≡ length kept = omega (arith, pr.place) in
      let back : idx ≡ length (kept ++ pr.free) =
        omega (arith, pr.place, pr.size, length-append kept pr.free) in
      rw (front, pr.whole, back)
        (ap (λ (zs : List A). zs ++ drop (length (kept ++ pr.free)) (kept ++ (pr.free ++ rest)))
            (take-append_left kept (pr.free ++ rest))
          ∙ ap (λ (zs : List A). kept ++ drop (length (kept ++ pr.free)) zs)
              (sym (append_assoc kept pr.free rest))
          ∙ ap (λ (zs : List A). kept ++ zs) (drop-append_left (kept ++ pr.free) rest))

-- The free places move on past the item that is copied.
set-free :
    {A : Type 0} (free rest : List A) (x : A)
    → (free' : List A) × (length free' ≡ length free)
      × (set (free ++ x ∷ rest) 0 x ≡ x ∷ free' ++ rest)
set-free [] rest x = ([], refl, refl)
set-free {A} (y ∷ free) rest x = (
  free ++ x ∷ [],
  omega (arith, length-append free (x ∷ [])),
  ap (λ (zs : List A). x ∷ zs) (sym (append_assoc free (x ∷ []) rest)),
)

keep-Progress :
    {A : Type 0} (kept rest v : List A) (idx ncut : ℕ) (x : A)
    → Progress kept (x ∷ rest) v idx ncut
    → Progress (kept ++ x ∷ []) rest (set v (idx - ncut) x) (idx + 1) ncut
keep-Progress {A} kept rest v idx ncut x pr =
    let (free', same, moved) = set-free pr.free rest x in
    let at : idx - ncut ≡ length kept + 0 = omega (arith, pr.place) in
    record {
      free = free';
      whole =
          ap (λ (n : ℕ). set v n x) at
          ∙ ap (λ (zs : List A). set zs (length kept + 0) x) pr.whole
          ∙ set-append_right kept (pr.free ++ x ∷ rest) 0 x
          ∙ ap (λ (zs : List A). kept ++ zs) moved
          ∙ sym (append_assoc kept (x ∷ []) (free' ++ rest));
      size = same ∙ pr.size;
      place = omega (arith, pr.place, length-append kept (x ∷ []));
    }

module _ {In Out : Type 0} (key_in : In → ℕ) (key_out : Out → ℕ) where
  -- From any point on the loop, and the cut after it, leave what was kept and the merge of the rest.
  pub cut_loop-cut :
      (fuel : ℕ) (s : Cutting In Out) (kept_in ins : List In) (kept_out outs : List Out)
      → Progress kept_in ins s.inputs s.inputs_idx s.ncut
      → Progress kept_out outs s.outputs s.outputs_idx s.ncut
      → length ins + length outs ≤ fuel
      → drain_both (cut_loop key_in key_out fuel s)
        ≡ (kept_in ++ (cut key_in key_out ins outs).0, kept_out ++ (cut key_in key_out ins outs).1)
  unfolding cut_loop cut drain_both
  cut_loop-cut zero s kept_in [] kept_out [] p q enough =
      rw (drain-Progress kept_in [] s.inputs s.inputs_idx s.ncut p)
        (rw (drain-Progress kept_out [] s.outputs s.outputs_idx s.ncut q) refl)
  cut_loop-cut zero s kept_in [] kept_out (o ∷ outs) p q enough = ground (arith, enough)
  cut_loop-cut zero s kept_in (i ∷ ins) kept_out outs p q enough = ground (arith, enough)
  cut_loop-cut (suc fuel) s kept_in [] kept_out outs p q enough = ground (
    arith,
    get-Progress_end kept_in [] s.inputs s.inputs_idx s.ncut p,
    drain-Progress kept_in [] s.inputs s.inputs_idx s.ncut p,
    drain-Progress kept_out outs s.outputs s.outputs_idx s.ncut q,
  )
  cut_loop-cut (suc fuel) s kept_in (i ∷ ins) kept_out [] p q enough = ground (
    arith,
    get-Progress kept_in ins s.inputs s.inputs_idx s.ncut i p,
    get-Progress_end kept_out [] s.outputs s.outputs_idx s.ncut q,
    drain-Progress kept_in (i ∷ ins) s.inputs s.inputs_idx s.ncut p,
    drain-Progress kept_out [] s.outputs s.outputs_idx s.ncut q,
  )
  cut_loop-cut (suc fuel) s kept_in (i ∷ ins) kept_out (o ∷ outs) p q enough =
      let below = (cut key_in key_out ins (o ∷ outs)).0 in
      let above = (cut key_in key_out (i ∷ ins) outs).1 in
      let put_in : (kept_in ++ i ∷ []) ++ below ≡ kept_in ++ i ∷ below =
        append_assoc kept_in (i ∷ []) below in
      let put_out : (kept_out ++ o ∷ []) ++ above ≡ kept_out ++ o ∷ above =
        append_assoc kept_out (o ∷ []) above in
      ground (
        arith,
        get-Progress kept_in ins s.inputs s.inputs_idx s.ncut i p,
        get-Progress kept_out outs s.outputs s.outputs_idx s.ncut o q,
        cut_loop-cut fuel
            (record s {
              inputs = set s.inputs (s.inputs_idx - s.ncut) i;
              inputs_idx = s.inputs_idx + 1;
            })
            (kept_in ++ i ∷ []) ins kept_out (o ∷ outs)
            (keep-Progress kept_in ins s.inputs s.inputs_idx s.ncut i p) q (omega (arith, enough)),
        cut_loop-cut fuel
            (record s {
              outputs = set s.outputs (s.outputs_idx - s.ncut) o;
              outputs_idx = s.outputs_idx + 1;
            })
            kept_in (i ∷ ins) (kept_out ++ o ∷ []) outs p
            (keep-Progress kept_out outs s.outputs s.outputs_idx s.ncut o q)
            (omega (arith, enough)),
        cut_loop-cut fuel
            (record s {
              inputs_idx = s.inputs_idx + 1;
              outputs_idx = s.outputs_idx + 1;
              ncut = s.ncut + 1;
            })
            kept_in ins kept_out outs (skip-Progress kept_in ins s.inputs s.inputs_idx s.ncut i p)
            (skip-Progress kept_out outs s.outputs s.outputs_idx s.ncut o q)
            (omega (arith, enough)),
      )
