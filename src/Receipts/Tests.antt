-- ===== src/Receipts/Tests.antt =====
-- Runs of both loops on a deposit and a transaction that pays a fee.
use rblib_world_chain.Prelude.{
  ℕ, ◌≡◌, ◌+◌, ◌++◌, refl, arith, Option, none, some, List, [], ◌∷◌, ok, true, map,
}
use rblib_world_chain.Receipts.{
  TxType, Tx, ExecutionResult, Nonces, Totals, deposit_receipt, eip1559_receipt,
  deposit_receipt_version, add_fee,
}
use rblib_world_chain.Receipts.Span.{Checkpoint, visit_span, deposit_nonce}
use rblib_world_chain.Receipts.Parallel.{
  ParallelResult, absorb_all, absorb, nonce_and_fees, build_receipt,
}
use rblib_world_chain.Receipts.Agreement.{visit_span-absorb_all}
use rblib_world_chain.Receipts.Sums.{
  absorb_all-sums, total_gas, total_fees, running_gas, cumulative,
}

abbrev tx_of : TxType → Option ℕ → Tx
tx_of tx_type tip = record { tx_type = tx_type; signer = 3; effective_tip = tip }

abbrev result_of : ℕ → ExecutionResult
result_of gas = record { is_success = true; gas_used = gas; logs = [] }

abbrev nonce_at : ℕ → Nonces
nonce_at index signer = ok (some (index + signer))

-- A bundle is its number of changes.
abbrev executed : List (ParallelResult ℕ)
executed =
    record {
      index = 1;
      bundle_state = 10;
      exec_result = result_of 50000;
      tx = tx_of TxType.deposit none;
    }
    ∷ record {
      index = 2;
      bundle_state = 20;
      exec_result = result_of 21000;
      tx = tx_of TxType.eip1559 (some 2);
    }
    ∷ []

abbrev checkpoint_of : ParallelResult ℕ → Checkpoint ℕ
checkpoint_of r = record {
  state = some r.bundle_state;
  transactions = r.tx ∷ [];
  result = some (r.exec_result ∷ []);
  prev = some (nonce_at r.index);
}

abbrev no_totals : Totals ℕ
no_totals = record { bundle_state = 0; cumulative_gas_used = 0; fees = 0; receipts = [] }

visit_span-absorb_all_example :
    visit_span ◌+◌ (nonce_at 0) true (map checkpoint_of executed) no_totals
    ≡ absorb_all ◌+◌ nonce_at true executed no_totals
unfolding deposit_nonce
visit_span-absorb_all_example =
    visit_span-absorb_all ◌+◌ (nonce_at 0) nonce_at true (map checkpoint_of executed) executed
      no_totals ((refl, refl, refl, refl), ((refl, refl, refl, refl), tt))

abbrev all_totals : Totals ℕ
all_totals = record {
  bundle_state = 30;
  cumulative_gas_used = 71000;
  fees = 42000;
  receipts =
      deposit_receipt (record { status = true; cumulative_gas_used = 50000; logs = [] }) (some 4)
        (some 1)
      ∷ eip1559_receipt (record { status = true; cumulative_gas_used = 71000; logs = [] })
      ∷ [];
}

absorbs : absorb_all ◌+◌ nonce_at true executed no_totals ≡ ok all_totals
unfolding absorb_all absorb nonce_and_fees build_receipt deposit_receipt_version add_fee
absorbs = refl

absorb_all-sums_example :
    (all_totals.cumulative_gas_used ≡ no_totals.cumulative_gas_used + total_gas executed)
    × (all_totals.fees ≡ no_totals.fees + total_fees executed)
    × (map cumulative all_totals.receipts
        ≡ map cumulative no_totals.receipts ++ running_gas 0 executed)
absorb_all-sums_example =
    absorb_all-sums ◌+◌ nonce_at true no_totals all_totals executed (omega arith) (omega arith)
      absorbs
