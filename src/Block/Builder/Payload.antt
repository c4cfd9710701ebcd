-- ===== src/Block/Builder/Payload.antt =====
-- What a payload made by `FlashblockBuilder::build` carries of its request.
use mathlib.Core.List.{map-append, map-id}
use rblib_world_chain.Prelude.{
  ◌+◌, ◌%◌, u64_mod, ◌≡◌, refl, ap₂, ◌∙◌, Option, none, some, List, [], ◌∷◌, ◌++◌, map,
  if◌then◌else◌, ok, collect, arith, bind_ok, ok_or, map_err,
}
use rblib_world_chain.Primitives.Data.{Bytes, BlockAccessList}
use rblib_world_chain.Executor.Request.{BuildRequest, Outcome, freeze, better}
use rblib_world_chain.Receipts.{Totals}
use rblib_world_chain.Receipts.Parallel.{absorb_all}
use rblib_world_chain.Block.{
  Recovered, BundleState, BuiltPayload, EvmEnv, Chain, StateProvider, unwrap_or, missing_payload,
  receipt, flatten_bundle, withdrawals_and_requests,
}
use rblib_world_chain.Block.Builder.{
  State, Executed, Parent, Engine, Prepared, recover, prepare, sort_by_index, bal_state_of,
  block_builder, index_from,
}
use rblib_world_chain.Block.Builder.Build.{
  seal, finish, build_payload, build, set_bal_index, totals_of, merge_bals, start, execute,
}

-- The transactions of the committed payload, if there is one.
abbrev pub committed_txs : {Accounts : Type 0} → Option (BuiltPayload Accounts) → List Bytes
committed_txs none = []
committed_txs (some payload) = payload.block.transactions

module _ {Accounts Db Cache Info Slots : Type 0} (chain : Chain Accounts)
    (engine : Engine Accounts Db Cache Info Slots) where
  abbrev Request : Type 0
  Request = BuildRequest Bytes (BuiltPayload Accounts) Parent EvmEnv Db

  recover-tx : (tx : Bytes) (r : Recovered) → recover chain engine tx ≡ ok r → r.tx ≡ tx
  recover-tx tx r h = ground arith

  collect-recover :
      {A : Type 0} (f : A → Bytes) (xs : List A) (rs : List Recovered)
      → collect (λ x. recover chain engine (f x)) xs ≡ ok rs
      → map (λ r. r.tx) rs ≡ map f xs
  collect-recover f [] rs h = let same : [] ≡ rs = ground arith in rw⁻¹ same refl
  collect-recover f (x ∷ xs) rs h =
      let (r, e, h') = bind_ok (recover chain engine (f x)) _ rs h in
      let (rest, e', h'') = bind_ok (collect (λ x. recover chain engine (f x)) xs) _ rs h' in
      let same : r ∷ rest ≡ rs = ground arith in
      rw⁻¹ same (ap₂ (λ t ts. t ∷ ts) (recover-tx (f x) r e) (collect-recover f xs rest e'))

  prepare-txs :
      (committed : Option (BuiltPayload Accounts)) (prepared : Prepared Accounts)
      → prepare chain engine committed ≡ ok prepared
      → map (λ r. r.tx) prepared.transactions ≡ committed_txs committed
  unfolding prepare
  prepare-txs none prepared h = ground arith
  prepare-txs (some payload) prepared h =
      let (executed, e, h') = bind_ok (ok_or payload.executed_block missing_payload) _ prepared h in
      let (txs, e', h'') =
        bind_ok (collect (recover chain engine) payload.block.transactions) _ prepared h' in
      let same : prepared.transactions ≡ txs = ground arith in
      rw same (
        collect-recover (λ tx. tx) payload.block.transactions txs e'
        ∙ map-id payload.block.transactions)

  -- What the payload takes from its request.
  abbrev pub Answers : Request → BuiltPayload Accounts → Type 0
  Answers request payload =
      (payload.id ≡ request.attributes.payload_attributes.id)
      × (payload.block.transactions
          ≡ committed_txs request.committed_payload
            ++ map (λ t. t.1) request.attributes.transactions)
      × (payload.block.header.parent_hash ≡ request.parent.hash)
      × (payload.block.header.number ≡ (request.parent.number + 1) % u64_mod)
      × (payload.block.header.gas_limit ≡ unwrap_or request.attributes.gas_limit 0)

  seal-Answers :
      (provider : StateProvider Accounts) (request : Request) (txs : List Recovered)
      (bal : BlockAccessList) (totals : Totals (BundleState Accounts))
      (payload : BuiltPayload Accounts)
      → map (λ r. r.tx) txs
        ≡ committed_txs request.committed_payload ++ map (λ t. t.1) request.attributes.transactions
      → seal chain engine provider request txs bal totals ≡ ok payload
      → Answers request payload
  unfolding seal
  seal-Answers provider request txs bal totals payload txs_eq h =
      let bundle = flatten_bundle chain totals.bundle_state in
      let (fork, e, h') =
        bind_ok
          (withdrawals_and_requests chain provider bundle
            request.attributes.payload_attributes.timestamp)
          _ payload h in
      let (roots, e', h'') =
        bind_ok (provider.state_root_with_updates (provider.hashed_post_state bundle)) _ payload
          h' in
      let txs_same : payload.block.transactions ≡ map (λ r. r.tx) txs = ground arith in
      (ground arith, txs_same ∙ txs_eq, ground arith, ground arith, ground arith)

  finish-Answers :
      (provider : StateProvider Accounts) (request : Request) (prepared : Prepared Accounts)
      (state : State Cache Info Slots) (attributes_txs : List Recovered)
      (results : List (Executed Accounts Info Slots)) (payload : BuiltPayload Accounts)
      → prepare chain engine request.committed_payload ≡ ok prepared
      → collect (λ (_, tx). recover chain engine tx) request.attributes.transactions
        ≡ ok attributes_txs
      → finish chain engine provider request prepared state attributes_txs results ≡ ok payload
      → Answers request payload
  unfolding finish
  finish-Answers provider request prepared state attributes_txs results payload prep recovered h =
      let sorted = sort_by_index results in
      let (totals, _, h') =
        bind_ok
          (map_err receipt (
            absorb_all chain.extend (λ index. engine.basic (set_bal_index chain engine state index))
              (chain.is_canyon_active request.attributes.payload_attributes.timestamp)
              (map (λ r. r.result) sorted) (totals_of chain engine prepared)))
          _ payload h in
      seal-Answers provider request (prepared.transactions ++ attributes_txs)
        (engine.into_alloy_bal (merge_bals chain engine [] sorted)) totals payload
        (map-append (λ r. r.tx) prepared.transactions attributes_txs
          ∙ ap₂ ◌++◌ (prepare-txs request.committed_payload prepared prep)
              (collect-recover (λ t. t.1) request.attributes.transactions attributes_txs recovered))
        h'

  build_payload-Answers :
      (provider : StateProvider Accounts) (request : Request) (payload : BuiltPayload Accounts)
      → build_payload chain engine provider request ≡ ok payload
      → Answers request payload
  unfolding build_payload
  build_payload-Answers provider request payload h =
      let (prepared, prep, h₁) =
        bind_ok (prepare chain engine request.committed_payload) _ payload h in
      let (bal_state, _, h₂) =
        bind_ok
          (bal_state_of chain engine prepared.previous_bal request.bal prepared.transactions_offset)
          _ payload h₁ in
      let (builder, _, h₃) =
        bind_ok (block_builder chain engine prepared request.attributes request.parent) _ payload
          h₂ in
      let opened : State Cache Info Slots = record {
        cache = engine.open_state request.db prepared.bundle;
        bal_state = bal_state;
      } in
      let (started, _, h₄) = bind_ok (start chain engine prepared opened) _ payload h₃ in
      let (attributes_txs, recovered, h₅) =
        bind_ok (collect (λ (_, tx). recover chain engine tx) request.attributes.transactions) _
          payload h₄ in
      let (results, _, h₆) =
        bind_ok
          (collect (execute chain engine request.db prepared.bundle started.0 request.evm_env)
            (index_from started.1 attributes_txs))
          _ payload h₅ in
      finish-Answers provider request prepared started.0 attributes_txs results payload prep
        recovered h₆

  -- Where build succeeds its outcome is a payload, frozen if the request excludes the pool and
  -- better otherwise, with the requested id, the transactions of the committed payload followed by
  -- the requested ones, the hash of the parent, the number after it, and the requested gas limit or
  -- else 0.
  pub build-Answers :
      (provider : StateProvider Accounts) (request : Request)
      (outcome : Outcome (BuiltPayload Accounts))
      → build chain engine provider request ≡ ok outcome
      → (payload : BuiltPayload Accounts) × (outcome
          ≡ (if request.attributes.no_tx_pool then freeze payload else better payload))
        × Answers request payload
  unfolding build
  build-Answers provider request outcome h =
      let (payload, e, h') = bind_ok (build_payload chain engine provider request) _ outcome h in
      (payload, ground arith, build_payload-Answers provider request payload e)
