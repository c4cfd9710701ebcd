-- ===== src/Platform/Tests.antt =====
-- Runs of `extract_external_txs` and `build_payload` on transactions that are their own hashes.
use rblib_world_chain.Prelude.{
  ℕ, ◌≡◌, refl, inl, inr, arith, none, some, List, [], ◌∷◌, ◌++◌, map, Result, ok,
}
use rblib_world_chain.Executor.Request.{Outcome, better}
use rblib_world_chain.Platform.{
  Error, PooledTransaction, BuilderAttributes, OpPayloadBuilderCtx, PlatformCheckpoint, matches_at,
  count_matches, extract_external_txs, build_payload,
}
use rblib_world_chain.Platform.External.{extract_external_txs_mismatch}
use rblib_world_chain.Platform.Vanilla.{build_payload-history}

abbrev own_hash : ℕ → ℕ
own_hash tx = tx

extract_external_txs_mismatch_example :
    extract_external_txs own_hash (1 ∷ 2 ∷ []) (9 ∷ 2 ∷ 3 ∷ []) ≡ 2 ∷ 3 ∷ []
extract_external_txs_mismatch_example =
    extract_external_txs_mismatch own_hash 1 9 2 (3 ∷ []) (λ e. omega (arith, e))

-- A builder whose payloads are their transactions.
abbrev small_builder :
    List (PooledTransaction ℕ)
    → OpPayloadBuilderCtx ℕ ℕ ℕ (BuilderAttributes ℕ ℕ) (List ℕ)
    → Result Error (Outcome (List ℕ))
small_builder pool ctx = ok (better (ctx.attributes.transactions ++ map (λ t. t.transaction) pool))

abbrev small_checkpoint : PlatformCheckpoint ℕ ℕ ℕ ℕ ℕ (List ℕ)
small_checkpoint = record {
  evm_config = 0;
  chainspec = 0;
  parent = 0;
  attributes = record { transactions = 1 ∷ 2 ∷ []; rest = 0 };
  latest_barrier = some none;
  history = 1 ∷ 2 ∷ 3 ∷ [];
}

build_payload-history_example :
    (built : List ℕ) × (build_payload own_hash own_hash small_builder small_checkpoint ≡ ok built)
    × (built ≡ 1 ∷ 2 ∷ 3 ∷ [])
unfolding extract_external_txs count_matches matches_at
build_payload-history_example =
    build_payload-history own_hash own_hash small_builder (λ built. built) small_checkpoint (3 ∷ [])
      (better (1 ∷ 2 ∷ 3 ∷ [])) (λ no_best running. (1 ∷ 2 ∷ 3 ∷ [], inl refl, refl)) (inr refl)
      refl refl
