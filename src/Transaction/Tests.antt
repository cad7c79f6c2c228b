-- ===== src/Transaction/Tests.antt =====
-- Transactions on bytes that compute, their checks, and the theorems at them.
use epic.Base.{
  ℕ, ◌+◌, ◌-◌, ◌^◌, ◌≤◌, ◌≡◌, ◌↔◌, ◌⊎◌, refl, arith, true, false, List, [], ◌∷◌, ◌++◌, replicate,
  map, none, some, min,
}
use epic.Base.Results.{ok, err}
use epic.Consensus.Emission.{automated_testing}
use epic.Ser.{max_proof_size, verify_sorted_and_unique, write_uint}
use epic.Ser.Tests.{big_endian, big_endian-ReadsBack, put_be, get_be}
use epic.Transaction.Errors.{CommittedError, committed, aggregation_error}
use epic.Transaction.Kernel as kernel
use epic.Transaction.Kernel.{TxKernel}
use epic.Transaction.Outputs as outputs
use epic.Transaction.Outputs.{Input, Output}
use epic.Transaction.Body as body
use epic.Transaction.Body.{Transaction, TransactionBody, as_transaction, validate_read}
use epic.Transaction.RoundTrip as trip
use epic.Transaction.Reading as reading
use epic.Transaction.Validation.{Has}
use epic.Transaction.CutThrough as cutting
use epic.Transaction.CutThrough.Balance.{cut_through_lem}
use epic.Transaction.Sorting as sorting
use epic.Transaction.Aggregate as aggregate
use epic.Transaction.Sums.{IsAggregate, aggregate-IsAggregate, total_outputs}
use epic.Transaction.Building.{
  with_items-verify_sorted, sum_fees, fee-sum_fees, msg_to_sign-has_wrong_features,
}
use epic.Committed.{Curve, sum_kernel_offsets}

abbrev pub spend : ℕ → Input
spend n = record { features = outputs.plain; commit = n ∷ replicate 32 0 }

abbrev pub pay : ℕ → Output
pay n = record {
  features = outputs.plain;
  commit = n ∷ replicate 32 0;
  proof = record { plen = max_proof_size; proof = replicate max_proof_size 7 };
}

abbrev pub kernel_of : ℕ → TxKernel
kernel_of n = record {
  features = kernel.plain;
  fee = n;
  lock_height = 0;
  excess = replicate 33 n;
  excess_sig = replicate 64 n;
}

abbrev pub payment : Transaction
payment = record {
  offset = replicate 32 1;
  body = record {
    inputs = spend 2 ∷ spend 5 ∷ [];
    outputs = pay 3 ∷ [];
    kernels = kernel_of 8 ∷ [];
  };
}

payment-validate_read : validate_read big_endian automated_testing payment ≡ ok tt
unfolding validate_read body.validate_body body.verify_weight body.max_weight
    body.body_weight_as_block body.weight_as_block body.verify_sorted body.verify_cut_through
    body.merge_hashes body.verify_features body.verify_output_features body.verify_kernel_features
    body.any outputs.is_coinbase_output outputs.is_coinbase kernel.is_coinbase
    verify_sorted_and_unique outputs.hash_input outputs.hash_output outputs.write_input
    outputs.write_output outputs.write_features outputs.as_u8 kernel.hash kernel.write
    kernel.write_features kernel.as_u8 write_uint put_be get_be
payment-validate_read = refl

payment-IsTyped : trip.IsTyped payment
payment-IsTyped = record {
  offset_size = refl;
  inputs_typed = (refl, (refl, tt));
  outputs_typed = (record { commit_size = refl; plen_full = refl; proof_size = refl }, tt);
  kernels_typed = (
    record {
      fee_fits = omega arith;
      lock_height_fits = omega arith;
      excess_size = refl;
      excess_sig_size = refl;
    },
    tt,
  );
}

read-write_tx_example :
    body.read big_endian automated_testing (body.write big_endian payment ++ 9 ∷ [])
    ≡ ok (payment, 9 ∷ [])
read-write_tx_example =
    trip.read-write_tx big_endian big_endian-ReadsBack automated_testing payment (9 ∷ [])
      payment-IsTyped payment-validate_read

read-IsValid_example : reading.IsValid big_endian automated_testing payment
read-IsValid_example =
    reading.read-IsValid big_endian automated_testing (body.write big_endian payment ++ 9 ∷ [])
      payment (9 ∷ [])
      (trip.read-write_tx big_endian big_endian-ReadsBack automated_testing payment (9 ∷ [])
        payment-IsTyped payment-validate_read)

validate_read-IsValid_example :
    (validate_read big_endian automated_testing payment ≡ ok tt)
    ↔ reading.IsValid big_endian automated_testing payment
validate_read-IsValid_example = reading.validate_read-IsValid big_endian automated_testing payment

verify_cut_through-ok_example : (body.verify_cut_through big_endian payment.body ≡ ok tt) ↔ (
    (h : ℕ)
    → Has h (map (outputs.hash_input big_endian) payment.body.inputs)
    → Has h (map (outputs.hash_output big_endian) payment.body.outputs)
    → ⊥)
verify_cut_through-ok_example =
    let valid =
      reading.read-IsValid big_endian automated_testing (body.write big_endian payment ++ [])
        payment []
        (trip.read-write_tx big_endian big_endian-ReadsBack automated_testing payment []
          payment-IsTyped payment-validate_read) in
    reading.verify_cut_through-ok big_endian payment.body valid.inputs_order valid.outputs_order

-- Three pairs of items by their numbers, two of which are cut.
cut_through_test :
    cutting.cut_through (λ (n : ℕ). n) (λ (n : ℕ). n) (5 ∷ 2 ∷ 9 ∷ []) (9 ∷ 4 ∷ 5 ∷ [])
    ≡ some (2 ∷ [], 4 ∷ [])
unfolding cutting.cut_through cutting.has_equal_pair cutting.cut_loop cutting.drain_both
    cutting.drain sorting.sort sorting.insert_sorted
cut_through_test = refl

no_cut_through_test :
    cutting.cut_through (λ (n : ℕ). n) (λ (n : ℕ). n) (5 ∷ []) (4 ∷ 5 ∷ 4 ∷ []) ≡ none
unfolding cutting.cut_through cutting.has_equal_pair sorting.sort sorting.insert_sorted
no_cut_through_test = refl

cut_through_lem_example :
    ((k : ℕ) × (2 ≤ sorting.count (λ (n : ℕ). n) k (9 ∷ 4 ∷ 5 ∷ []))
      × (cutting.cut_through (λ (n : ℕ). n) (λ (n : ℕ). n) (5 ∷ 2 ∷ 9 ∷ []) (9 ∷ 4 ∷ 5 ∷ [])
          ≡ none))
    ⊎ ((ins : List ℕ) × (outs : List ℕ) × (cutting.cut_through
            (λ (n : ℕ). n)
            (λ (n : ℕ). n)
            (5 ∷ 2 ∷ 9 ∷ [])
            (9 ∷ 4 ∷ 5 ∷ [])
          ≡ some (ins, outs))
        × ((k : ℕ) → sorting.count (λ (n : ℕ). n) k (9 ∷ 4 ∷ 5 ∷ []) ≤ 1)
        × ((k : ℕ)
            → sorting.count (λ (n : ℕ). n) k ins + sorting.count (λ (n : ℕ). n) k (9 ∷ 4 ∷ 5 ∷ [])
              ≡ sorting.count (λ (n : ℕ). n) k (5 ∷ 2 ∷ 9 ∷ [])
                + sorting.count (λ (n : ℕ). n) k outs)
        × ((k : ℕ)
            → (sorting.count (λ (n : ℕ). n) k ins ≡ 0) ⊎ (sorting.count (λ (n : ℕ). n) k outs ≡ 0)))
cut_through_lem_example =
    cut_through_lem (λ (n : ℕ). n) (λ (n : ℕ). n) (5 ∷ 2 ∷ 9 ∷ []) (9 ∷ 4 ∷ 5 ∷ [])

-- Sums of the first bytes in the place of a curve.
unfoldable pub sum_heads : List (List ℕ) → ℕ
sum_heads [] = 0
sum_heads ([] ∷ xs) = sum_heads xs
sum_heads ((b ∷ bs) ∷ xs) = b + sum_heads xs

abbrev pub toy_curve : Curve
toy_curve = record {
  commit_sum = λ positive negative. ok ((sum_heads positive - sum_heads negative) ∷ []);
  commit = λ value key. ok (value ∷ []);
  commit_value = λ value. ok (value ∷ []);
  commit_to_zero_value = 0 ∷ [];
  blind_sum = λ positive negative. ok ((sum_heads positive - sum_heads negative) ∷ []);
  secret_key_from_slice = λ bytes. ok bytes;
  to_pubkey = λ bytes. ok bytes;
  verify_single = λ sig msg key. true;
  verify_bullet_proof_multi = λ commits proofs. ok tt;
}

abbrev pub payment_on : Transaction
payment_on = record {
  offset = replicate 32 2;
  body = record { inputs = spend 3 ∷ []; outputs = pay 6 ∷ []; kernels = kernel_of 4 ∷ [] };
}

aggregate-IsAggregate_example :
    ((k : ℕ) × (2 ≤ total_outputs big_endian k (payment ∷ payment_on ∷ []))
      × (aggregate.aggregate big_endian toy_curve (payment ∷ payment_on ∷ [])
          ≡ err aggregation_error))
    ⊎ (((e : CommittedError) × (sum_kernel_offsets toy_curve
              (map (λ t. Transaction.offset t) (payment ∷ payment_on ∷ []))
              []
            ≡ err e)
          × (aggregate.aggregate big_endian toy_curve (payment ∷ payment_on ∷ [])
              ≡ err (committed e)))
        ⊎ ((agg : Transaction) × (aggregate.aggregate big_endian toy_curve
                (payment ∷ payment_on ∷ [])
              ≡ ok agg)
            × IsAggregate big_endian toy_curve (payment ∷ payment_on ∷ []) agg))
aggregate-IsAggregate_example = aggregate-IsAggregate big_endian toy_curve payment payment_on []

payment-verify_sorted : body.verify_sorted big_endian payment.body ≡ ok tt
unfolding body.verify_sorted verify_sorted_and_unique outputs.hash_input outputs.hash_output
    outputs.write_input outputs.write_output outputs.write_features outputs.as_u8 kernel.hash
    kernel.write kernel.write_features kernel.as_u8 write_uint put_be get_be
payment-verify_sorted = refl

with_items-verify_sorted_example :
    (body.verify_sorted big_endian (body.with_input big_endian payment.body (spend 4)) ≡ ok tt)
    × (body.verify_sorted big_endian (body.with_output big_endian payment.body (pay 1)) ≡ ok tt)
    × (body.verify_sorted big_endian (body.with_kernel big_endian payment.body (kernel_of 8))
        ≡ ok tt)
with_items-verify_sorted_example =
    with_items-verify_sorted big_endian payment.body (spend 4) (pay 1) (kernel_of 8)
      payment-verify_sorted

fee-sum_fees_example : body.fee payment.body ≡ min (sum_fees payment.body.kernels) (2 ^ 64 - 1)
fee-sum_fees_example = fee-sum_fees payment.body

msg_to_sign-has_wrong_features_example :
    (aggregate.has_wrong_features (kernel_of 8) ≡ false)
    ↔ ((msg : ℕ) × (kernel.msg_to_sign big_endian (kernel_of 8) ≡ ok msg))
msg_to_sign-has_wrong_features_example = msg_to_sign-has_wrong_features big_endian (kernel_of 8)

fee_to_weight_test : body.fee_to_weight payment ≡ 2666
unfolding body.fee_to_weight body.fee body.fee_from body.body_weight body.weight
fee_to_weight_test = refl
