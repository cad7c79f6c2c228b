-- ===== src/Transaction/CutThrough.antt =====
-- `cut_through` of core/src/core/transaction.rs, in place on two vectors, and the merge that
-- `verify_cut_through` makes.
pub mod Merge
pub mod InPlace
pub mod Balance
use Prim.Native.Nat.{compare, Ordering}
use epic.Base.{
  ℕ, zero, suc, ◌+◌, ◌-◌, Bool, true, false, List, [], ◌∷◌, ◌++◌, Option, none, some, get_elem?,
  set, take, drop, length, ◌==◌, if◌then◌else◌, map,
}
use epic.Transaction.Sorting.{sort}

-- The vectors, their indices and the number of cut pairs.
pub record Cutting (In Out : Type 0) : Type 0 where
  pub inputs : List In
  pub outputs : List Out
  pub inputs_idx : ℕ
  pub outputs_idx : ℕ
  pub ncut : ℕ

-- `v.drain(idx - ncut..idx)`
unfoldable pub drain : {A : Type 0} → List A → ℕ → ℕ → List A
drain v idx ncut = take (idx - ncut) v ++ drop idx v

unfoldable pub drain_both : {In Out : Type 0} → Cutting In Out → List In × List Out
drain_both s = (drain s.inputs s.inputs_idx s.ncut, drain s.outputs s.outputs_idx s.ncut)

-- `windows(2).any(|pair| pair[0] == pair[1])`
unfoldable pub has_equal_pair : {Out : Type 0} → (Out → ℕ) → List Out → Bool
has_equal_pair key_out [] = false
has_equal_pair key_out (x ∷ []) = false
has_equal_pair key_out (x ∷ y ∷ ys) =
    if key_out x == key_out y then true else has_equal_pair key_out (y ∷ ys)

module _ {In Out : Type 0} (key_in : In → ℕ) (key_out : Out → ℕ) where
  -- Each round moves an index on, so the sum of the lengths is enough fuel.
  unfoldable pub cut_loop : ℕ → Cutting In Out → Cutting In Out
  cut_loop zero s = s
  cut_loop (suc fuel) s = elim (get_elem? s.inputs s.inputs_idx) [
    | none ↦ s
    | some i ↦ elim (get_elem? s.outputs s.outputs_idx) [
      | none ↦ s
      | some o ↦ elim (compare (key_in i) (key_out o)) [
        | Ordering.lt ↦ cut_loop fuel (record s {
          inputs = set s.inputs (s.inputs_idx - s.ncut) i;
          inputs_idx = s.inputs_idx + 1;
        })
        | Ordering.gt ↦ cut_loop fuel (record s {
          outputs = set s.outputs (s.outputs_idx - s.ncut) o;
          outputs_idx = s.outputs_idx + 1;
        })
        | Ordering.eq ↦ cut_loop fuel (record s {
          inputs_idx = s.inputs_idx + 1;
          outputs_idx = s.outputs_idx + 1;
          ncut = s.ncut + 1;
        })
      ]
    ]
  ]

  -- `none` is `AggregationError`.
  unfoldable pub cut_through : List In → List Out → Option (List In × List Out)
  cut_through inputs outputs =
      let outs = sort key_out outputs in
      let ins = sort key_in inputs in
      if has_equal_pair key_out outs
      then none
      else some (
          drain_both (
            cut_loop (length ins + length outs)
              (record { inputs = ins; outputs = outs; inputs_idx = 0; outputs_idx = 0; ncut = 0 })))
