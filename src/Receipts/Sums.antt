-- ===== src/Receipts/Sums.antt =====
-- The totals of the builder's loop against sums over the executed transactions.
use mathlib.Core.List.{map-append}
use rblib_world_chain.Prelude.{
  ℕ, ◌+◌, ◌*◌, ◌<◌, u64_mod, ◌≡◌, sym, ap, ◌∙◌, Bool, Option, none, some, List, [], ◌∷◌, ◌++◌, map,
  append_assoc, append-nil, ok, arith, Result-cases, inl, inr, if◌then◌else◌,
}
use rblib_world_chain.Receipts.{
  Tx, ExecutionResult, OpReceipt, deposit_receipt, legacy_receipt, eip2930_receipt, eip1559_receipt,
  eip7702_receipt, Nonces, Totals, add_fee, is_deposit, u256_mod,
}
use rblib_world_chain.Receipts.Parallel.{
  ParallelResult, absorb, absorb_all, nonce_and_fees, build_receipt,
}

-- The cumulative gas that a receipt carries.
abbrev pub cumulative : OpReceipt → ℕ
cumulative (deposit_receipt r sender_nonce version) = r.cumulative_gas_used
cumulative (legacy_receipt r) = r.cumulative_gas_used
cumulative (eip2930_receipt r) = r.cumulative_gas_used
cumulative (eip1559_receipt r) = r.cumulative_gas_used
cumulative (eip7702_receipt r) = r.cumulative_gas_used

module _ {Bundle : Type 0} where
  -- The gas of all transactions, and the running sums of it after each of them.
  abbrev pub total_gas : List (ParallelResult Bundle) → ℕ
  total_gas [] = 0
  total_gas (r ∷ rs) = r.exec_result.gas_used + total_gas rs

  abbrev pub running_gas : ℕ → List (ParallelResult Bundle) → List ℕ
  running_gas gas [] = []
  running_gas gas (r ∷ rs) =
      (gas + r.exec_result.gas_used) ∷ running_gas (gas + r.exec_result.gas_used) rs

  -- What a transaction pays: its tip for each unit of gas, and nothing for a deposit.
  abbrev pub fee : ParallelResult Bundle → ℕ
  fee r =
      if is_deposit r.tx
      then 0
      else elim r.tx.effective_tip [ none ↦ 0 | some tip ↦ tip * r.exec_result.gas_used ]

  abbrev pub total_fees : List (ParallelResult Bundle) → ℕ
  total_fees [] = 0
  total_fees (r ∷ rs) = fee r + total_fees rs

module _ {Bundle : Type 0} (extend : Bundle → Bundle → Bundle) (nonce_at : ℕ → Nonces)
    (is_canyon_active : Bool) where
  build_receipt-cumulative :
      (tx : Tx) (result : ExecutionResult) (gas : ℕ) (sender_nonce : Option ℕ)
      → cumulative (build_receipt extend nonce_at is_canyon_active tx result gas sender_nonce) ≡ gas
  unfolding build_receipt
  build_receipt-cumulative tx result gas sender_nonce = ground arith

  nonce_and_fees-fee :
      (r : ParallelResult Bundle) (fees next : ℕ) (sender_nonce : Option ℕ)
      → fees + fee r < u256_mod
      → nonce_and_fees extend nonce_at is_canyon_active r fees ≡ ok (sender_nonce, next)
      → next ≡ fees + fee r
  unfolding nonce_and_fees add_fee
  nonce_and_fees-fee r fees next sender_nonce bound h = ground arith

  absorb_lem :
      (totals next : Totals Bundle) (r : ParallelResult Bundle)
      → totals.cumulative_gas_used + r.exec_result.gas_used < u64_mod
      → totals.fees + fee r < u256_mod
      → absorb extend nonce_at is_canyon_active totals r ≡ ok next
      → (next.cumulative_gas_used ≡ totals.cumulative_gas_used + r.exec_result.gas_used)
        × (next.fees ≡ totals.fees + fee r)
        × (map cumulative next.receipts
            ≡ map cumulative totals.receipts
              ++ ((totals.cumulative_gas_used + r.exec_result.gas_used) ∷ []))
  unfolding absorb nonce_and_fees add_fee
  absorb_lem totals next r gas_bound fee_bound h =
      elim (Result-cases (nonce_and_fees extend nonce_at is_canyon_active r totals.fees)) [
        | inl ((sender_nonce, fees), e) ↦
            let made =
              build_receipt extend nonce_at is_canyon_active r.tx r.exec_result
                (totals.cumulative_gas_used + r.exec_result.gas_used) sender_nonce in
            let receipts : next.receipts ≡ totals.receipts ++ (made ∷ []) = ground arith in
            (
              ground arith,
              nonce_and_fees-fee r totals.fees next.fees sender_nonce fee_bound (ground arith),
              ap (map cumulative) receipts
                  ∙ map-append cumulative totals.receipts (made ∷ [])
                  ∙ ap (λ g. map cumulative totals.receipts ++ (g ∷ []))
                      (build_receipt-cumulative r.tx r.exec_result _ sender_nonce),
            )
        | inr (x, e) ↦ absurd (ground arith)
      ]

  -- Where no sum overflows and the builder's loop succeeds, it ends with the gas and the fees it
  -- began with plus those of all its transactions, a deposit paying none, and each receipt that it
  -- adds carries the gas up to and with its transaction.
  pub absorb_all-sums :
      (totals last : Totals Bundle) (rs : List (ParallelResult Bundle))
      → totals.cumulative_gas_used + total_gas rs < u64_mod
      → totals.fees + total_fees rs < u256_mod
      → absorb_all extend nonce_at is_canyon_active rs totals ≡ ok last
      → (last.cumulative_gas_used ≡ totals.cumulative_gas_used + total_gas rs)
        × (last.fees ≡ totals.fees + total_fees rs)
        × (map cumulative last.receipts
            ≡ map cumulative totals.receipts ++ running_gas totals.cumulative_gas_used rs)
  unfolding absorb_all
  absorb_all-sums totals last [] gas_bound fee_bound h =
      let same : totals ≡ last = ground arith in
      rw⁻¹ same (omega arith, omega arith, sym (append-nil (map cumulative totals.receipts)))
  absorb_all-sums totals last (r ∷ rs) gas_bound fee_bound h =
      elim (Result-cases (absorb extend nonce_at is_canyon_active totals r)) [
        | inl (next, e) ↦
            let step = absorb_lem totals next r (omega arith) (omega arith) e in
            let rest =
              absorb_all-sums next last rs (omega (arith, step.0, gas_bound))
                (omega (arith, step.1, fee_bound)) (ground arith) in
            (
              omega (arith, step.0, rest.0),
              omega (arith, step.1, rest.1),
              rest.2 ∙ rw (step.0, step.2) (append_assoc (map cumulative totals.receipts) _ _),
            )
        | inr (x, e) ↦ absurd (ground arith)
      ]
