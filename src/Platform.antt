-- ===== src/Platform.antt =====
-- src/platform.rs: which payload a job resolves to, and how the vanilla builder is called where no
-- flashblock has been published; src/flashblocks/ctx.rs: the other place that makes a context for that
-- builder. `OpBuilder` and the checkpoint's configuration are arguments.
pub mod External
pub mod Vanilla
mod Tests
use rblib_world_chain.Prelude.{
  ℕ, suc, ◌+◌, Bool, true, false, Option, none, some, List, [], ◌∷◌, length, drop, get_elem?, map,
  ◌==◌, if◌then◌else◌, Result, ok, err, ◌>>=◌,
}
use rblib_world_chain.Executor.Request.{Outcome, better, freeze, aborted, cancelled}

-- `external` is an error of the builder, by its code.
pub data Error : Type 0 where
  panicked : Error
  external : ℕ → Error

-- `OpPooledTransaction`
pub record PooledTransaction (Tx : Type 0) : Type 0 where
  pub transaction : Tx
  pub encoded_length : ℕ

-- `OpPayloadBuilderAttributes`: the sequencer's transactions, and the rest.
pub record BuilderAttributes (Tx Rest : Type 0) : Type 0 where
  pub transactions : List Tx
  pub rest : Rest

-- `OpPayloadBuilderCtx`, with the fields of its `PayloadConfig`; `cancel` says whether it is dropped.
pub record OpPayloadBuilderCtx (Config Spec Header Attrs Built : Type 0) : Type 0 where
  pub evm_config : Config
  pub chain_spec : Spec
  pub parent_header : Header
  pub attributes : Attrs
  pub cancel : Bool
  pub best_payload : Option Built
  pub builder_config : ℕ

-- `OpBuilderConfig::default()`
abbrev pub default_builder_config : ℕ
default_builder_config = 0

-- What platform.rs reads of a checkpoint and of its block; the barrier is given by its context.
pub record PlatformCheckpoint (Tx Config Spec Header Rest Built : Type 0) : Type 0 where
  pub evm_config : Config
  pub chainspec : Spec
  pub parent : Header
  pub attributes : BuilderAttributes Tx Rest
  pub latest_barrier : Option (Option Built)
  pub history : List Tx

-- `OpPayloadBuilderCtxBuilder::build`
unfoldable pub build_ctx :
    {Config Spec Header Attrs Built : Type 0}
    → (chain_spec : Spec) → Config
    → (builder_config : ℕ) → Header
    → Attrs
    → (cancel : Bool) → Option Built
    → OpPayloadBuilderCtx Config Spec Header Attrs Built
build_ctx chain_spec evm builder_config parent attributes cancel best_payload = record {
  evm_config = evm;
  chain_spec = chain_spec;
  parent_header = parent;
  attributes = attributes;
  cancel = cancel;
  best_payload = best_payload;
  builder_config = builder_config;
}

module _ {Tx : Type 0} (tx_hash : Tx → ℕ) where
  -- `transactions.get(ix).is_some_and(|tx| tx.tx_hash() == sequencer_tx)`
  unfoldable pub matches_at : List Tx → ℕ → ℕ → Bool
  matches_at transactions ix sequencer_tx = elim (get_elem? transactions ix) [
    | none ↦ false
    | some tx ↦ tx_hash tx == sequencer_tx
  ]

  -- The loop over the sequencer transactions, by hash, from position `ix` on.
  unfoldable pub count_matches : List Tx → ℕ → List ℕ → ℕ → ℕ
  count_matches transactions ix [] prefix_len = prefix_len
  count_matches transactions ix (s ∷ ss) prefix_len =
      count_matches transactions (ix + 1) ss
        (if matches_at transactions ix s then prefix_len + 1 else prefix_len)

  unfoldable pub extract_external_txs : (sequencer_txs history : List Tx) → List Tx
  extract_external_txs sequencer_txs history =
      drop (count_matches history 0 (map tx_hash sequencer_txs) 0) history

module _ {Tx Config Spec Header Rest Built : Type 0} (tx_hash encode_2718_len : Tx → ℕ)
    (op_builder : List (PooledTransaction Tx)
      → OpPayloadBuilderCtx Config Spec Header (BuilderAttributes Tx Rest) Built
      → Result Error (Outcome Built)) where
  -- What the vanilla builder is offered as its pool, and its context.
  abbrev pub pool_of :
      PlatformCheckpoint Tx Config Spec Header Rest Built → List (PooledTransaction Tx)
  pool_of payload =
      map
        (λ (recovered : Tx). record {
          transaction = recovered;
          encoded_length = encode_2718_len recovered;
        })
        (extract_external_txs tx_hash payload.attributes.transactions payload.history)

  abbrev pub context_of :
      PlatformCheckpoint Tx Config Spec Header Rest Built
      → OpPayloadBuilderCtx Config Spec Header (BuilderAttributes Tx Rest) Built
  context_of payload = record {
    evm_config = payload.evm_config;
    chain_spec = payload.chainspec;
    parent_header = payload.parent;
    attributes = payload.attributes;
    cancel = false;
    best_payload = none;
    builder_config = default_builder_config;
  }

  -- The match on the outcome; `unreachable!` panics.
  unfoldable pub built_payload : Outcome Built → Result Error Built
  built_payload (better payload) = ok payload
  built_payload (freeze payload) = ok payload
  built_payload aborted = err panicked
  built_payload cancelled = err panicked

  unfoldable pub op_build_payload :
      PlatformCheckpoint Tx Config Spec Header Rest Built → Result Error Built
  unfolding built_payload
  op_build_payload payload = do
    build_outcome ← op_builder (pool_of payload) (context_of payload)
    built_payload build_outcome

  -- The payload of the latest published flashblock, or that of the vanilla builder.
  unfoldable pub build_payload :
      PlatformCheckpoint Tx Config Spec Header Rest Built → Result Error Built
  unfolding op_build_payload
  build_payload payload = elim payload.latest_barrier [
    | none ↦ op_build_payload payload
    | some none ↦ op_build_payload payload
    | some (some built) ↦ ok built
  ]
