-- ===== src/Receipts/Parallel.antt =====
-- src/flashblocks/builder.rs: `build_receipt`, and the loop of the builder over the results of the
-- parallel execution, in the order of their indices.
use rblib_world_chain.Prelude.{
  ℕ, ◌+◌, ◌%◌, u64_mod, Bool, Option, none, List, [], ◌∷◌, ◌++◌, Result, ok, ◌>>=◌, ok_or,
  if◌then◌else◌,
}
use rblib_world_chain.Receipts.{
  Tx, deposit, legacy, eip2930, eip1559, eip7702, is_deposit, ExecutionResult, Receipt, OpReceipt,
  deposit_receipt, legacy_receipt, eip2930_receipt, eip1559_receipt, eip7702_receipt, Error,
  panicked, Nonces, Totals, add_fee, deposit_receipt_version,
}

-- `ParallelResult`, without its access list, which the loop merges apart.
pub record ParallelResult (Bundle : Type 0) : Type 0 where
  pub index : ℕ
  pub bundle_state : Bundle
  pub exec_result : ExecutionResult
  pub tx : Tx

module _ {Bundle : Type 0} (extend : Bundle → Bundle → Bundle) (nonce_at : ℕ → Nonces)
    (is_canyon_active : Bool) where
  unfoldable pub build_receipt : Tx → ExecutionResult → ℕ → Option ℕ → OpReceipt
  build_receipt tx result cumulative_gas_used deposit_nonce =
      let receipt : Receipt = record {
        status = result.is_success;
        cumulative_gas_used = cumulative_gas_used;
        logs = result.logs;
      } in
      elim tx.tx_type [
        | deposit ↦ deposit_receipt receipt deposit_nonce (deposit_receipt_version is_canyon_active)
        | legacy ↦ legacy_receipt receipt
        | eip2930 ↦ eip2930_receipt receipt
        | eip1559 ↦ eip1559_receipt receipt
        | eip7702 ↦ eip7702_receipt receipt
      ]

  -- The sender_nonce of a deposit's sender and the fees: the state is read at the transaction's index.
  unfoldable pub nonce_and_fees : ParallelResult Bundle → ℕ → Result Error (Option ℕ × ℕ)
  nonce_and_fees r fees =
      if is_deposit r.tx
      then (nonce_at r.index r.tx.signer >>= λ sender_nonce. ok (sender_nonce, fees))
      else (ok_or r.tx.effective_tip panicked >>= λ miner_fee.
          ok (none, add_fee fees miner_fee r.exec_result.gas_used))

  unfoldable pub absorb : Totals Bundle → ParallelResult Bundle → Result Error (Totals Bundle)
  unfolding build_receipt nonce_and_fees
  absorb totals r =
      let gas = (totals.cumulative_gas_used + r.exec_result.gas_used) % u64_mod in
      nonce_and_fees r totals.fees >>= λ (sender_nonce, fees). ok (record {
        bundle_state = extend totals.bundle_state r.bundle_state;
        cumulative_gas_used = gas;
        fees = fees;
        receipts = totals.receipts ++ (build_receipt r.tx r.exec_result gas sender_nonce ∷ []);
      })

  unfoldable pub absorb_all :
      List (ParallelResult Bundle) → Totals Bundle → Result Error (Totals Bundle)
  unfolding absorb
  absorb_all [] totals = ok totals
  absorb_all (r ∷ rs) totals = absorb totals r >>= absorb_all rs
