-- ===== src/Block/Builder/Build.antt =====
-- `FlashblockBuilder::build`: the parallel execution of the requested transactions on top of the
-- committed payload, and the payload made of them.
use rblib_world_chain.Prelude.{
  ℕ, ◌+◌, ◌%◌, u64_mod, some, List, [], ◌∷◌, ◌++◌, map, Result, ok, ◌>>=◌, map_err, collect, ◌==◌,
  if◌then◌else◌,
}
use rblib_world_chain.Primitives.Data.{Bytes, BlockAccessList}
use rblib_world_chain.Executor.Request.{BuildRequest, Outcome, better, freeze}
use rblib_world_chain.Receipts.{Totals}
use rblib_world_chain.Receipts.Parallel.{absorb_all}
use rblib_world_chain.Block.{
  Error, receipt, Recovered, BundleState, Header, BuiltPayload, EvmEnv, Chain, StateProvider,
  flat_map, logs_of, unwrap_or, tx_of, flatten_bundle, withdrawals_and_requests, blob_fields,
  assemble_payload,
}
use rblib_world_chain.Block.Builder.{
  AccountBal, Bal, State, Executed, Parent, Engine, Prepared, index_from, sort_by_index, recover,
  prepare, bal_state_of, block_builder,
}

module _ {Accounts Db Cache Info Slots : Type 0} (chain : Chain Accounts)
    (engine : Engine Accounts Db Cache Info Slots) where
  -- `final_bal.accounts.entry(addr).and_modify(..).or_insert(acc_bal)`
  unfoldable pub merge_account : Bal Info Slots → ℕ × AccountBal Info Slots → Bal Info Slots
  merge_account [] (addr, acc_bal) = (addr, acc_bal) ∷ []
  merge_account ((a, account_bal) ∷ rest) (addr, acc_bal) =
      if a == addr
      then (
        a,
        record {
          account_info = engine.extend_info account_bal.account_info acc_bal.account_info;
          storage = engine.extend_storage account_bal.storage acc_bal.storage;
        },
      )
        ∷ rest
      else (a, account_bal) ∷ merge_account rest (addr, acc_bal)

  unfoldable pub merge_bal : Bal Info Slots → Bal Info Slots → Bal Info Slots
  unfolding merge_account
  merge_bal final_bal [] = final_bal
  merge_bal final_bal (entry ∷ rest) = merge_bal (merge_account final_bal entry) rest

  unfoldable pub merge_bals : Bal Info Slots → List (Executed Accounts Info Slots) → Bal Info Slots
  unfolding merge_bal
  merge_bals final_bal [] = final_bal
  merge_bals final_bal (r ∷ rs) = merge_bals (merge_bal final_bal (unwrap_or r.bal [])) rs

  abbrev pub set_bal_index : State Cache Info Slots → ℕ → State Cache Info Slots
  set_bal_index state index = record state {
    bal_state = record state.bal_state { bal_index = index };
  }

  -- One transaction, on a state of its own over the committed bundle.
  unfoldable pub execute :
      Db
      → BundleState Accounts
      → State Cache Info Slots
      → EvmEnv
      → ℕ × Recovered
      → Result Error (Executed Accounts Info Slots)
  execute db bundle state evm_env (index, tx) =
      let state_paral = record state { cache = engine.open_state db bundle } in
      engine.transact evm_env (set_bal_index state_paral index) tx
      >>= λ (bundle_state, exec_result, bal). ok (record {
        result = record {
          index = index;
          bundle_state = bundle_state;
          exec_result = exec_result;
          tx = tx_of chain evm_env.basefee tx;
        };
        bal = bal;
      })

  -- Before the first transaction of a block the pre-execution changes are applied.
  unfoldable pub start :
      Prepared Accounts → State Cache Info Slots → Result Error (State Cache Info Slots × ℕ)
  start prepared state =
      if prepared.transactions_offset == 0
      then (engine.apply_pre_execution_changes state >>= λ started. ok (started, 1))
      else ok (state, prepared.transactions_offset)

  -- From the totals and the merged access list to the payload.
  unfoldable pub seal :
      StateProvider Accounts
      → BuildRequest Bytes (BuiltPayload Accounts) Parent EvmEnv Db
      → List Recovered
      → BlockAccessList
      → Totals (BundleState Accounts)
      → Result Error (BuiltPayload Accounts)
  unfolding withdrawals_and_requests blob_fields
  seal provider request txs alloy_bal totals =
      let attributes = request.attributes in
      let timestamp = attributes.payload_attributes.timestamp in
      let bundle = flatten_bundle chain totals.bundle_state in
      withdrawals_and_requests chain provider bundle timestamp
      >>= λ (withdrawals_root, requests_hash).
          let (excess_blob_gas, blob_gas_used) = blob_fields chain 0 timestamp in
          let hashed_state = provider.hashed_post_state bundle in
          provider.state_root_with_updates hashed_state >>= λ (state_root, trie_updates).
          let number = (request.parent.number + 1) % u64_mod in
          let header : Header = record {
            parent_hash = request.parent.hash;
            ommers_hash = chain.empty_ommer_root_hash;
            beneficiary = request.evm_env.beneficiary;
            state_root = state_root;
            transactions_root = chain.calculate_transaction_root txs;
            receipts_root = chain.calculate_receipt_root totals.receipts timestamp;
            withdrawals_root = withdrawals_root;
            logs_bloom = chain.logs_bloom (flat_map logs_of totals.receipts);
            timestamp = timestamp;
            mix_hash = unwrap_or request.evm_env.prevrandao 0;
            nonce = chain.beacon_nonce;
            base_fee_per_gas = some request.evm_env.basefee;
            number = number;
            gas_limit = unwrap_or attributes.gas_limit 0;
            difficulty = request.evm_env.difficulty;
            gas_used = totals.cumulative_gas_used;
            extra_data = request.extra_data;
            parent_beacon_block_root = attributes.payload_attributes.parent_beacon_block_root;
            blob_gas_used = blob_gas_used;
            excess_blob_gas = excess_blob_gas;
            requests_hash = requests_hash;
            block_access_list_hash = some (chain.compute_block_access_list_hash alloy_bal);
          } in
          ok (
            assemble_payload attributes.payload_attributes.id header txs (some alloy_bal)
              totals.fees number totals.receipts bundle hashed_state trie_updates)

  abbrev pub totals_of : Prepared Accounts → Totals (BundleState Accounts)
  totals_of prepared = record {
    bundle_state = prepared.bundle;
    cumulative_gas_used = unwrap_or prepared.gas_used 0;
    fees = prepared.fees;
    receipts = prepared.receipts;
  }

  -- The results in the order of their indices, into the payload.
  unfoldable pub finish :
      StateProvider Accounts
      → BuildRequest Bytes (BuiltPayload Accounts) Parent EvmEnv Db
      → Prepared Accounts
      → State Cache Info Slots
      → List Recovered
      → List (Executed Accounts Info Slots)
      → Result Error (BuiltPayload Accounts)
  unfolding seal merge_bals sort_by_index
  finish provider request prepared state attributes_txs results =
      let sorted = sort_by_index results in
      map_err receipt (
        absorb_all chain.extend (λ index. engine.basic (set_bal_index state index))
          (chain.is_canyon_active request.attributes.payload_attributes.timestamp)
          (map (λ r. r.result) sorted) (totals_of prepared))
      >>= seal provider request (prepared.transactions ++ attributes_txs)
          (engine.into_alloy_bal (merge_bals [] sorted))

  unfoldable pub build_payload :
      StateProvider Accounts
      → BuildRequest Bytes (BuiltPayload Accounts) Parent EvmEnv Db
      → Result Error (BuiltPayload Accounts)
  unfolding prepare bal_state_of block_builder start execute finish
  build_payload provider request = do
    prepared ← prepare chain engine request.committed_payload
    bal_state ←
        bal_state_of chain engine prepared.previous_bal request.bal prepared.transactions_offset
    _ ← block_builder chain engine prepared request.attributes request.parent
    (state, offset) ←
        start prepared
          (record { cache = engine.open_state request.db prepared.bundle; bal_state = bal_state })
    attributes_txs ← collect (λ (_, tx). recover chain engine tx) request.attributes.transactions
    results ←
        collect (execute request.db prepared.bundle state request.evm_env)
          (index_from offset attributes_txs)
    finish provider request prepared state attributes_txs results

  unfoldable pub build :
      StateProvider Accounts
      → BuildRequest Bytes (BuiltPayload Accounts) Parent EvmEnv Db
      → Result Error (Outcome (BuiltPayload Accounts))
  unfolding build_payload
  build provider request = build_payload provider request >>= λ payload.
      ok (if request.attributes.no_tx_pool then freeze payload else better payload)
