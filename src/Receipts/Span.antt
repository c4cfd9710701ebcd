-- ===== src/Receipts/Span.antt =====
-- src/step/publish_flashblocks.rs: `build_receipt`, and the loop of `build_op_built_payload` over the
-- checkpoints of the unpublished span.
use rblib_world_chain.Prelude.{
  ℕ, ◌+◌, ◌%◌, u64_mod, Bool, Option, none, some, List, [], ◌∷◌, ◌++◌, Result, ok, ◌>>=◌, ok_or,
  if◌then◌else◌, get_elem?,
}
use rblib_world_chain.Receipts.{
  Tx, deposit, legacy, eip2930, eip1559, eip7702, is_deposit, ExecutionResult, Receipt, OpReceipt,
  deposit_receipt, legacy_receipt, eip2930_receipt, eip1559_receipt, eip7702_receipt, Error,
  panicked, Nonces, Totals, add_fee, deposit_receipt_version,
}

-- A checkpoint: its state, transactions and results, and the nonces that the checkpoint before it
-- sees, where there is one.
pub record Checkpoint (Bundle : Type 0) : Type 0 where
  pub state : Option Bundle
  pub transactions : List Tx
  pub result : Option (List ExecutionResult)
  pub prev : Option Nonces

module _ {Bundle : Type 0} (extend : Bundle → Bundle → Bundle) (provider_nonce : Nonces)
    (is_canyon_active : Bool) where
  -- The sender's sender_nonce, from the checkpoint before or else from the provider.
  unfoldable pub deposit_nonce : Checkpoint Bundle → ℕ → Result Error (Option ℕ)
  deposit_nonce checkpoint signer = elim checkpoint.prev [
    | some sender_nonce ↦ sender_nonce signer
    | none ↦ provider_nonce signer
  ]

  unfoldable pub build_receipt :
      Tx → ExecutionResult → ℕ → Checkpoint Bundle → Result Error OpReceipt
  build_receipt tx result cumulative_gas_used checkpoint =
      let receipt : Receipt = record {
        status = result.is_success;
        cumulative_gas_used = cumulative_gas_used;
        logs = result.logs;
      } in
      elim tx.tx_type [
        | deposit ↦ deposit_nonce checkpoint tx.signer >>= λ sender_nonce.
            ok (deposit_receipt receipt sender_nonce (deposit_receipt_version is_canyon_active))
        | legacy ↦ ok (legacy_receipt receipt)
        | eip2930 ↦ ok (eip2930_receipt receipt)
        | eip1559 ↦ ok (eip1559_receipt receipt)
        | eip7702 ↦ ok (eip7702_receipt receipt)
      ]

  -- Only a transaction that is not a deposit pays a miner fee.
  unfoldable pub add_miner_fee : Tx → ℕ → ℕ → Result Error ℕ
  add_miner_fee tx gas_used fees =
      if is_deposit tx
      then ok fees
      else (ok_or tx.effective_tip panicked >>= λ miner_fee. ok (add_fee fees miner_fee gas_used))

  -- One transaction with its result.
  unfoldable pub visit_result :
      Checkpoint Bundle → Totals Bundle → Tx → ExecutionResult → Result Error (Totals Bundle)
  unfolding build_receipt add_miner_fee
  visit_result checkpoint totals tx result =
      let gas = (totals.cumulative_gas_used + result.gas_used) % u64_mod in
      add_miner_fee tx result.gas_used totals.fees >>= λ fees.
      build_receipt tx result gas checkpoint >>= λ receipt. ok (record totals {
        cumulative_gas_used = gas;
        fees = fees;
        receipts = totals.receipts ++ (receipt ∷ []);
      })

  -- The loop over the transactions of a checkpoint, from position `i` on.
  unfoldable pub visit_txs :
      Checkpoint Bundle → ℕ → List Tx → Totals Bundle → Result Error (Totals Bundle)
  unfolding visit_result
  visit_txs checkpoint i [] totals = ok totals
  visit_txs checkpoint i (tx ∷ txs) totals = elim checkpoint.result [
    | none ↦ visit_txs checkpoint (i + 1) txs totals
    | some results ↦
        (ok_or (get_elem? results i) panicked >>= λ result.
        visit_result checkpoint totals tx result >>= visit_txs checkpoint (i + 1) txs)
  ]

  -- The loop over the span; a checkpoint with no state is passed over.
  unfoldable pub visit_span :
      List (Checkpoint Bundle) → Totals Bundle → Result Error (Totals Bundle)
  unfolding visit_txs
  visit_span [] totals = ok totals
  visit_span (checkpoint ∷ span) totals = elim checkpoint.state [
    | none ↦ visit_span span totals
    | some state ↦
        (visit_txs checkpoint 0 checkpoint.transactions
            (record totals { bundle_state = extend totals.bundle_state state })
          >>= visit_span span)
  ]
