-- ===== src/Block/Publisher.antt =====
-- src/step/publish_flashblocks.rs: `build_op_built_payload`, with `extract_previous_state`.
use rblib_world_chain.Prelude.{
  ℕ, min, ◌-◌, u64_mod, Option, none, some, List, [], ◌∷◌, Result, ok, err, ◌>>=◌, map_err,
}
use rblib_world_chain.Primitives.Data.{Bytes, BlockAccessList}
use rblib_world_chain.Receipts.{Totals}
use rblib_world_chain.Receipts.Span.{Checkpoint, visit_span}
use rblib_world_chain.Block.{
  Error, panicked, receipt, Recovered, BundleState, Header, BuiltPayload, EvmEnv, Chain,
  StateProvider, flat_map, logs_of, unwrap_or, flatten_bundle, withdrawals_and_requests,
  blob_fields, assemble_payload,
}

-- What the function reads of `payload.block()`.
pub record BlockContext (Accounts : Type 0) : Type 0 where
  pub payload_id : ℕ
  pub parent_hash : ℕ
  pub number : ℕ
  pub timestamp : ℕ
  pub base_fee : ℕ
  pub base_bundle_state : BundleState Accounts
  pub evm_env : EvmEnv
  pub extra_data : Bytes
  pub parent_beacon_block_root : Option ℕ

-- What it reads of the checkpoint: the latest barrier with the payload built there, the span that
-- is not published yet, and the history of the whole payload.
pub record Publication (Accounts : Type 0) : Type 0 where
  pub block : BlockContext Accounts
  pub latest_barrier : Option (Option (BuiltPayload Accounts))
  pub span : List (Checkpoint (BundleState Accounts))
  pub history : List Recovered
  pub cumulative_da_footprint : Option ℕ
  pub alloy_bal : BlockAccessList

module _ {Accounts : Type 0} where
  abbrev fresh : Publication Accounts → Totals (BundleState Accounts) × Option BlockAccessList
  fresh p = (
    record {
      bundle_state = p.block.base_bundle_state;
      cumulative_gas_used = 0;
      fees = 0;
      receipts = [];
    },
    some [],
  )

  -- The totals of the payload built at the barrier; its `expect`s panic.
  unfoldable pub resume :
      BuiltPayload Accounts → Result Error (Totals (BundleState Accounts) × Option BlockAccessList)
  resume built = elim built.executed_block [
    | none ↦ err panicked
    | some executed ↦ elim executed.receipts [
      | [] ↦ err panicked
      | receipts ∷ others ↦ ok (
        record {
          bundle_state = executed.bundle;
          cumulative_gas_used = built.block.header.gas_used;
          fees = built.fees;
          receipts = receipts;
        },
        built.block.block_access_list,
      )
    ]
  ]

  unfoldable pub extract_previous_state :
      Publication Accounts → Result Error (Totals (BundleState Accounts) × Option BlockAccessList)
  unfolding resume
  extract_previous_state p = elim p.latest_barrier [
    | none ↦ ok (fresh p)
    | some none ↦ ok (fresh p)
    | some (some built) ↦ resume built
  ]

module _ {Accounts : Type 0} (chain : Chain Accounts) (provider : StateProvider Accounts) where
  -- From the totals to the payload.
  unfoldable pub seal :
      Publication Accounts → Totals (BundleState Accounts) → Result Error (BuiltPayload Accounts)
  unfolding withdrawals_and_requests blob_fields
  seal p totals =
      let timestamp = p.block.timestamp in
      let bundle = flatten_bundle chain totals.bundle_state in
      withdrawals_and_requests chain provider bundle timestamp
      >>= λ (withdrawals_root, requests_hash).
          let (excess_blob_gas, blob_gas_used) =
            blob_fields chain (unwrap_or p.cumulative_da_footprint 0) timestamp in
          let hashed_state = provider.hashed_post_state bundle in
          provider.state_root_with_updates hashed_state >>= λ (state_root, trie_updates).
          let header : Header = record {
            parent_hash = p.block.parent_hash;
            ommers_hash = chain.empty_ommer_root_hash;
            beneficiary = p.block.evm_env.beneficiary;
            state_root = state_root;
            transactions_root = chain.calculate_transaction_root p.history;
            receipts_root = chain.calculate_receipt_root totals.receipts timestamp;
            withdrawals_root = withdrawals_root;
            logs_bloom = chain.logs_bloom (flat_map logs_of totals.receipts);
            timestamp = timestamp;
            mix_hash = unwrap_or p.block.evm_env.prevrandao 0;
            nonce = chain.beacon_nonce;
            base_fee_per_gas = some p.block.base_fee;
            number = min p.block.evm_env.number (u64_mod - 1);
            gas_limit = p.block.evm_env.gas_limit;
            difficulty = p.block.evm_env.difficulty;
            gas_used = totals.cumulative_gas_used;
            extra_data = p.block.extra_data;
            parent_beacon_block_root = p.block.parent_beacon_block_root;
            blob_gas_used = blob_gas_used;
            excess_blob_gas = excess_blob_gas;
            requests_hash = requests_hash;
            block_access_list_hash = some (chain.compute_block_access_list_hash p.alloy_bal);
          } in
          ok (
            assemble_payload p.block.payload_id header p.history (some p.alloy_bal) totals.fees
              p.block.number totals.receipts bundle hashed_state trie_updates)

  -- The access list of the previous payload is read, and logged only.
  unfoldable pub build_op_built_payload :
      Publication Accounts → Result Error (BuiltPayload Accounts)
  unfolding extract_previous_state seal
  build_op_built_payload p = extract_previous_state p >>= λ (totals, old_bal).
      map_err receipt (
        visit_span chain.extend provider.basic (chain.is_canyon_active p.block.timestamp) p.span
          totals)
      >>= seal p
