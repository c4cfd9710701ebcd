-- ===== src/Block/Agreement.antt =====
-- The block that the publisher makes of its checkpoints against the one that the builder makes of
-- the flashblocks: what they agree on.
use rblib_world_chain.Prelude.{
  ℕ, ◌+◌, ◌-◌, ◌%◌, min, u64_mod, ◌≡◌, refl, sym, ap, ◌∙◌, Option, none, List, [], ◌++◌, map,
  Result, ok, ◌>>=◌, map_err, bind_congr, bind_assoc, Result-cases, Bool-cases, inl, inr,
}
use rblib_world_chain.Primitives.Data.{Bytes, BlockAccessList}
use rblib_world_chain.Executor.Request.{BuildRequest}
use rblib_world_chain.Receipts.{Nonces, Totals}
use rblib_world_chain.Receipts.Parallel.{absorb_all}
use rblib_world_chain.Receipts.Span.{visit_span}
use rblib_world_chain.Receipts.Agreement.{AllExecute, visit_span-absorb_all}
use rblib_world_chain.Block.{
  Error, receipt, Recovered, BundleState, BuiltPayload, EvmEnv, Chain, StateProvider,
  flatten_bundle, withdrawals_and_requests,
}
use rblib_world_chain.Block.Publisher.{Publication, extract_previous_state, build_op_built_payload}
use rblib_world_chain.Block.Publisher as Publisher
use rblib_world_chain.Block.Builder.{Executed, Parent, Engine, State, Prepared, sort_by_index}
use rblib_world_chain.Block.Builder.Build as Build
use rblib_world_chain.Block.Builder.Build.{finish, set_bal_index, totals_of}

-- A payload without what the two compute differently: the gas limit, the blob gas and the access
-- list.
abbrev pub common : {Accounts : Type 0} → BuiltPayload Accounts → BuiltPayload Accounts
common payload = record payload {
  block = record payload.block {
    header = record payload.block.header {
      gas_limit = 0;
      blob_gas_used = none;
      block_access_list_hash = none;
    };
    block_access_list = none;
  };
}

abbrev pub ok_common :
    {Accounts : Type 0} → BuiltPayload Accounts → Result Error (BuiltPayload Accounts)
ok_common payload = ok (common payload)

-- A checkpoint's block and a request are for the same block.
pub record SameBlock {Accounts Db : Type 0} (p : Publication Accounts)
    (r : BuildRequest Bytes (BuiltPayload Accounts) Parent EvmEnv Db) : Type 0 where
  pub payload_id : p.block.payload_id ≡ r.attributes.payload_attributes.id
  pub timestamp : p.block.timestamp ≡ r.attributes.payload_attributes.timestamp
  pub parent_hash : p.block.parent_hash ≡ r.parent.hash
  pub beneficiary : p.block.evm_env.beneficiary ≡ r.evm_env.beneficiary
  pub prevrandao : p.block.evm_env.prevrandao ≡ r.evm_env.prevrandao
  pub difficulty : p.block.evm_env.difficulty ≡ r.evm_env.difficulty
  pub base_fee : p.block.base_fee ≡ r.evm_env.basefee
  pub extra_data : p.block.extra_data ≡ r.extra_data
  pub parent_beacon_block_root :
      p.block.parent_beacon_block_root ≡ r.attributes.payload_attributes.parent_beacon_block_root
  -- the number of the environment fits 64 bits and follows the parent's
  pub number : p.block.number ≡ (r.parent.number + 1) % u64_mod
  pub env_number : min p.block.evm_env.number (u64_mod - 1) ≡ (r.parent.number + 1) % u64_mod

module _ {Accounts Db Cache Info Slots : Type 0} (chain : Chain Accounts)
    (engine : Engine Accounts Db Cache Info Slots) (provider : StateProvider Accounts) where
  seals_agree :
      (p : Publication Accounts) (r : BuildRequest Bytes (BuiltPayload Accounts) Parent EvmEnv Db)
      (bal : BlockAccessList) (totals : Totals (BundleState Accounts))
      → SameBlock p r
      → (Publisher.seal chain provider p totals >>= ok_common)
        ≡ (Build.seal chain engine provider r p.history bal totals >>= ok_common)
  unfolding Publisher.seal Build.seal
  seals_agree p r bal totals same =
      let bundle = flatten_bundle chain totals.bundle_state in
      elim (Result-cases (
        withdrawals_and_requests chain provider bundle r.attributes.payload_attributes.timestamp)) [
          | inl (fork, e) ↦
              elim (Result-cases
                (provider.state_root_with_updates (provider.hashed_post_state bundle))) [
                  | inl (roots, e') ↦
                      rw
                        (
                          same.payload_id, same.timestamp, same.parent_hash, same.beneficiary,
                          same.prevrandao, same.difficulty, same.base_fee, same.extra_data,
                          same.parent_beacon_block_root, same.number, same.env_number, e, e',
                          Publisher.seal, Build.seal,
                        )
                        (elim (Bool-cases
                          (chain.is_jovian_active r.attributes.payload_attributes.timestamp)) [
                            | inl jovian ↦ rw jovian refl
                            | inr earlier ↦ rw earlier refl
                          ])
                  | inr (x, e') ↦ rw (same.timestamp, e, e', Publisher.seal, Build.seal) refl
                ]
          | inr (x, e) ↦ rw (same.timestamp, e, Publisher.seal, Build.seal) refl
        ]

  -- The loops over the results, on both sides.
  abbrev pub Loops : Type 0
  Loops = Result Error (Totals (BundleState Accounts))

  abbrev pub visited : Publication Accounts → Totals (BundleState Accounts) → Loops
  visited p totals = map_err receipt (
      visit_span chain.extend provider.basic (chain.is_canyon_active p.block.timestamp) p.span
        totals)

  abbrev pub nonce_at : State Cache Info Slots → ℕ → Nonces
  nonce_at state index = engine.basic (set_bal_index chain engine state index)

  abbrev pub absorbed :
      BuildRequest Bytes (BuiltPayload Accounts) Parent EvmEnv Db
      → Prepared Accounts
      → State Cache Info Slots
      → List (Executed Accounts Info Slots)
      → Loops
  absorbed r prepared state results = map_err receipt (
      absorb_all chain.extend (nonce_at state)
        (chain.is_canyon_active r.attributes.payload_attributes.timestamp)
        (map (λ s. s.result) (sort_by_index results)) (totals_of chain engine prepared))

  publisher_chain :
      (p : Publication Accounts) (totals : Totals (BundleState Accounts))
      (old_bal : Option BlockAccessList)
      → extract_previous_state p ≡ ok (totals, old_bal)
      → build_op_built_payload chain provider p
        ≡ (visited p totals >>= Publisher.seal chain provider p)
  unfolding build_op_built_payload
  publisher_chain p totals old_bal h =
      ap (λ x. x >>= λ (t, old). visited p t >>= Publisher.seal chain provider p) h

  -- For the same block and from the same earlier totals, where the span of the publisher holds the
  -- executed transactions one by one and its history is that of the request, build_op_built_payload
  -- and the end of the builder return the same error, or payloads that agree in everything but the
  -- gas limit, the blob gas and the access list of the block.
  pub builds_agree :
      (p : Publication Accounts) (r : BuildRequest Bytes (BuiltPayload Accounts) Parent EvmEnv Db)
      (prepared : Prepared Accounts) (state : State Cache Info Slots)
      (attributes_txs : List Recovered) (results : List (Executed Accounts Info Slots))
      (old_bal : Option BlockAccessList)
      → SameBlock p r
      → extract_previous_state p ≡ ok (totals_of chain engine prepared, old_bal)
      → p.history ≡ prepared.transactions ++ attributes_txs
      → AllExecute chain.extend provider.basic
          (nonce_at state)
          (chain.is_canyon_active r.attributes.payload_attributes.timestamp)
          p.span
          (map (λ s. s.result) (sort_by_index results))
      → (build_op_built_payload chain provider p >>= ok_common)
        ≡ (finish chain engine provider r prepared state attributes_txs results >>= ok_common)
  unfolding finish
  builds_agree p r prepared state attributes_txs results old_bal same previous history executes =
      let totals = totals_of chain engine prepared in
      let rs = map (λ s. s.result) (sort_by_index results) in
      let loops : visited p totals ≡ absorbed r prepared state results = rw same.timestamp (
        ap (map_err receipt) (
          visit_span-absorb_all chain.extend provider.basic (nonce_at state)
            (chain.is_canyon_active r.attributes.payload_attributes.timestamp) p.span rs totals
            executes)) in
      let bal = engine.into_alloy_bal (Build.merge_bals chain engine [] (sort_by_index results)) in
      ap (λ q. q >>= ok_common)
        (publisher_chain p totals old_bal previous
          ∙ ap (λ q. q >>= Publisher.seal chain provider p) loops)
      ∙ bind_assoc (absorbed r prepared state results) (Publisher.seal chain provider p) ok_common
      ∙ bind_congr (absorbed r prepared state results) _ _ (λ t. seals_agree p r bal t same)
      ∙ sym (
          bind_assoc (absorbed r prepared state results)
            (Build.seal chain engine provider r p.history bal) ok_common)
      ∙ ap
          (λ txs.
            (absorbed r prepared state results >>= Build.seal chain engine provider r txs bal)
            >>= ok_common)
          history
