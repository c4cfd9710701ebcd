-- ===== src/Platform/Vanilla.antt =====
-- What a job resolves to.
use rblib_world_chain.Prelude.{
  ℕ, ◌≡◌, ◌⊎◌, refl, sym, ap, ◌∙◌, none, some, List, [], ◌∷◌, ◌++◌, map, Result, ok, arith, false,
}
use rblib_world_chain.Executor.Request.{Outcome, better, freeze}
use rblib_world_chain.Platform.{
  Error, PooledTransaction, BuilderAttributes, OpPayloadBuilderCtx, PlatformCheckpoint,
  extract_external_txs, pool_of, context_of, built_payload, op_build_payload, build_payload,
}
use rblib_world_chain.Platform.External.{extract_external_txs_prefix}

module _ {Tx Config Spec Header Rest Built : Type 0} (tx_hash encode_2718_len : Tx → ℕ)
    (op_builder : List (PooledTransaction Tx)
      → OpPayloadBuilderCtx Config Spec Header (BuilderAttributes Tx Rest) Built
      → Result Error (Outcome Built))
    (txs_of : Built → List Tx) where
  abbrev pub Ctx : Type 0
  Ctx = OpPayloadBuilderCtx Config Spec Header (BuilderAttributes Tx Rest) Built

  -- A call of the builder gives up only where it is cancelled or there is a best payload; else its
  -- payload has the transactions of the attributes, then those of the pool.
  abbrev pub IsVanilla : List (PooledTransaction Tx) → Ctx → Outcome Built → Type 0
  IsVanilla pool ctx outcome =
      ctx.best_payload ≡ none
      → ctx.cancel ≡ false
      → (built : Built) × ((outcome ≡ better built) ⊎ (outcome ≡ freeze built))
        × (txs_of built ≡ ctx.attributes.transactions ++ map (λ t. t.transaction) pool)

  pool-transactions :
      (txs : List Tx)
      → map
          (λ (t : PooledTransaction Tx). t.transaction)
          (map (λ (tx : Tx). record { transaction = tx; encoded_length = encode_2718_len tx }) txs)
        ≡ txs
  pool-transactions [] = refl
  pool-transactions (tx ∷ txs) = ap (λ l. tx ∷ l) (pool-transactions txs)

  -- Where no flashblock has been published, the history begins with the sequencer transactions, and
  -- the vanilla builder, called with no best payload and not cancelled, builds a payload with the
  -- transactions of the attributes followed by those it is offered, build_payload returns a payload
  -- with exactly the transactions of the history.
  pub build_payload-history :
      (payload : PlatformCheckpoint Tx Config Spec Header Rest Built) (rest : List Tx)
      (outcome : Outcome Built)
      → IsVanilla
          (pool_of tx_hash encode_2718_len op_builder payload)
          (context_of tx_hash encode_2718_len op_builder payload)
          outcome
      → (payload.latest_barrier ≡ none) ⊎ (payload.latest_barrier ≡ some none)
      → payload.history ≡ payload.attributes.transactions ++ rest
      → op_builder
          (pool_of tx_hash encode_2718_len op_builder payload)
          (context_of tx_hash encode_2718_len op_builder payload)
        ≡ ok outcome
      → (built : Built) × (build_payload tx_hash encode_2718_len op_builder payload ≡ ok built)
        × (txs_of built ≡ payload.history)
  unfolding build_payload op_build_payload built_payload
  build_payload-history payload rest outcome vanilla unpublished begins runs =
      let (built, kind, txs) = vanilla refl refl in
      let externals : extract_external_txs tx_hash payload.attributes.transactions payload.history
          ≡ rest =
        ap (extract_external_txs tx_hash payload.attributes.transactions) begins
        ∙ extract_external_txs_prefix tx_hash payload.attributes.transactions rest in
      (
        built,
        ground arith,
        txs
            ∙ ap (λ l. payload.attributes.transactions ++ l) (pool-transactions _ ∙ externals)
            ∙ sym begins,
      )
