-- ===== src/Block/Tests.antt =====
-- Runs of the builder, of the publisher and of an executor with this builder.
use mathlib.Core.List.{Permᴰ}
use rblib_world_chain.Prelude.{
  ℕ, ◌≡◌, refl, none, some, List, [], ◌∷◌, map, ok, ◌>>=◌, arith, true, collect,
}
use rblib_world_chain.Executor.Request.{freeze}
use rblib_world_chain.Block.{
  Recovered, BundleState, BuiltPayload, tx_of, withdrawals_and_requests, blob_fields,
}
use rblib_world_chain.Receipts.{deposit_receipt_version, add_fee}
use rblib_world_chain.Receipts.Span.{Checkpoint, deposit_nonce}
use rblib_world_chain.Block.Publisher.{Publication, extract_previous_state, build_op_built_payload}
use rblib_world_chain.Block.Agreement.{SameBlock, ok_common, builds_agree}
use rblib_world_chain.Receipts.Parallel.{absorb_all, absorb, nonce_and_fees, build_receipt}
use rblib_world_chain.Reverts.{flatten_reverts, flatten}
use rblib_world_chain.Reverts
use rblib_world_chain.Block.Builder.{
  Executed, Prepared, State, index_from, sort_by_index, insert_by_index, prepare, bal_state_of,
  block_builder,
}
use rblib_world_chain.Block.Builder.Build.{build, execute, finish, totals_of}
use rblib_world_chain.Block.Builder.Build as Build
use rblib_world_chain.Block.Builder.Order.{sort-executed, Indexed}
use rblib_world_chain.Block.Builder.Payload.{build-Answers, Answers}
use rblib_world_chain.Block.Samples.{
  small_built, small_chain, small_provider, small_engine, small_request, small_env, no_changes,
}

abbrev small_txs : List Recovered
small_txs = record { tx = 7 ∷ 0 ∷ []; signer = 7 } ∷ record { tx = 7 ∷ 1 ∷ []; signer = 7 } ∷ []

abbrev small_state : State ℕ (List ℕ) (List ℕ)
small_state = record {
  cache = 0;
  bal_state = record { bal_builder = some []; bal = some []; bal_index = 0 };
}

abbrev small_result : ℕ → Recovered → Executed ℕ (List ℕ) (List ℕ)
small_result index tx = record {
  result = record {
    index = index;
    bundle_state = record { state = 10; reverts = [] ∷ [] };
    exec_result = record { is_success = true; gas_used = 21000; logs = [] };
    tx = tx_of small_chain 1 tx;
  };
  bal = some [];
}

abbrev small_results : List (Executed ℕ (List ℕ) (List ℕ))
small_results =
    small_result 1 (record { tx = 7 ∷ 0 ∷ []; signer = 7 })
    ∷ small_result 2 (record { tx = 7 ∷ 1 ∷ []; signer = 7 })
    ∷ []

executes :
    collect
      (execute small_chain small_engine 0 no_changes small_state small_env)
      (index_from 1 small_txs)
    ≡ ok small_results
unfolding execute
executes = refl

sort-executed_example :
    (sort_by_index (
        small_result 2 (record { tx = 7 ∷ 1 ∷ []; signer = 7 })
        ∷ small_result 1 (record { tx = 7 ∷ 0 ∷ []; signer = 7 })
        ∷ [])
      ≡ small_results)
    × Indexed 1 small_results
sort-executed_example =
    sort-executed small_chain small_engine 0 no_changes small_state small_env 1 small_txs
      small_results _ (omega arith) executes (Permᴰ.swap refl refl)

builds : build small_chain small_engine small_provider small_request ≡ ok (freeze small_built)
unfolding build Build.build_payload Build.finish Build.seal Build.start Build.execute prepare
    bal_state_of block_builder Build.merge_bals Build.merge_bal Build.merge_account sort_by_index
    insert_by_index withdrawals_and_requests blob_fields absorb_all absorb nonce_and_fees
    build_receipt deposit_receipt_version add_fee flatten_reverts flatten Reverts.absorb_all
builds = refl

build-Answers_example :
    (payload : BuiltPayload ℕ) × (freeze small_built ≡ freeze payload)
    × Answers small_chain small_engine small_request payload
build-Answers_example =
    build-Answers small_chain small_engine small_provider small_request (freeze small_built) builds

-- The checkpoints of the same two transactions.
abbrev checkpoint_of : Executed ℕ (List ℕ) (List ℕ) → Checkpoint (BundleState ℕ)
checkpoint_of r = record {
  state = some r.result.bundle_state;
  transactions = r.result.tx ∷ [];
  result = some (r.result.exec_result ∷ []);
  prev = none;
}

abbrev small_publication : Publication ℕ
small_publication = record {
  block = record {
    payload_id = 7;
    parent_hash = 77;
    number = 10;
    timestamp = 100;
    base_fee = 1;
    base_bundle_state = no_changes;
    evm_env = small_env;
    extra_data = 1 ∷ [];
    parent_beacon_block_root = some 8;
  };
  latest_barrier = none;
  span = map checkpoint_of small_results;
  history = small_txs;
  cumulative_da_footprint = some 400;
  alloy_bal = [];
}

same_block : SameBlock small_publication small_request
same_block = record {
  payload_id = refl;
  timestamp = refl;
  parent_hash = refl;
  beneficiary = refl;
  prevrandao = refl;
  difficulty = refl;
  base_fee = refl;
  extra_data = refl;
  parent_beacon_block_root = refl;
  number = refl;
  env_number = refl;
}

abbrev fresh_start : Prepared ℕ
fresh_start = record {
  bundle = no_changes;
  receipts = [];
  transactions = [];
  gas_used = none;
  fees = 0;
  previous_bal = some [];
  transactions_offset = 0;
}

starts :
    extract_previous_state small_publication
    ≡ ok (totals_of small_chain small_engine fresh_start, some [])
unfolding extract_previous_state
starts = refl

builds_agree_example :
    (build_op_built_payload small_chain small_provider small_publication >>= ok_common) ≡ (
      finish small_chain small_engine small_provider small_request fresh_start small_state small_txs
        small_results
      >>= ok_common)
unfolding deposit_nonce sort_by_index insert_by_index
builds_agree_example =
    builds_agree small_chain small_engine small_provider small_publication small_request fresh_start
      small_state small_txs small_results (some []) same_block starts refl
      ((refl, refl, refl, refl), ((refl, refl, refl, refl), tt))
