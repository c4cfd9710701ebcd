-- ===== src/Block/Executor/Tests.antt =====
-- An executor of a factory, and both ways to end a block, with a library that gives each transaction
-- 21000 gas and one transition.
use rblib_world_chain.Prelude.{ℕ, ◌+◌, ◌≡◌, refl, true, none, some, List, [], ◌∷◌, ◌++◌, ok, err}
use rblib_world_chain.Receipts.{Totals, eip1559_receipt}
use rblib_world_chain.Reverts.{AccountRevert, do_nothing}
use rblib_world_chain.Block.{
  Recovered, BundleState, BuiltPayload, withdrawals_and_requests, blob_fields,
}
use rblib_world_chain.Block.Samples.{
  small_chain, small_provider, small_env, small_built, no_changes,
}
use rblib_world_chain.Block.Publisher.{Publication, seal}
use rblib_world_chain.Block.Executor.{
  Evm, OpBlockExecutor, committed, Library, FlashblocksBlockBuilder, BlockBuilderOutcome,
  new_factory, set_pre_state, create_executor, with_bundle_prestate, new, finish,
}
use rblib_world_chain.Block.Executor.Finish.{Agrees, finish-Agrees-seal}

abbrev small_bundle : BundleState ℕ
small_bundle = record { state = 20; reverts = [] ∷ [] }

abbrev executes : OpBlockExecutor ℕ ℕ ℕ ℕ → OpBlockExecutor ℕ ℕ ℕ ℕ
executes e = record e {
  evm = record e.evm {
    bundle_state = record { state = e.evm.bundle_state.state + 10; reverts = [] ∷ [] };
  };
  receipts =
      e.receipts
      ++ (eip1559_receipt
            (record { status = true; cumulative_gas_used = e.gas_used + 21000; logs = [] })
          ∷ []);
  gas_used = e.gas_used + 21000;
}

abbrev small_library : Library ℕ ℕ ℕ ℕ ℕ ℕ
small_library = record {
  call = λ e c. (executes e, ok (committed (some 21000)));
  finish = λ e. ok (e.evm, record { receipts = e.receipts; gas_used = e.gas_used });
  merge_transitions = λ evm. evm.bundle_state;
  builder_call = λ b c. (b, ok (committed none));
  assemble_block = λ input. ok (record small_built.block { transactions = input.transactions });
}

-- A factory keeps the bundle that it is given, and an executor of it opens with that bundle.
opened_with :
    (create_executor {Rest = ℕ} {Ctx = ℕ} {Others = ℕ} small_chain
      (λ evm ctx. 0)
      (set_pre_state new_factory small_bundle)
      (record { bundle_state = no_changes; rest = 3 })
      4).inner.evm.bundle_state
    ≡ small_bundle
unfolding create_executor set_pre_state new with_bundle_prestate
opened_with = refl

abbrev two_txs : List Recovered
two_txs = record { tx = 7 ∷ 1 ∷ []; signer = 7 } ∷ record { tx = 9 ∷ 1 ∷ []; signer = 9 } ∷ []

abbrev wiped : AccountRevert
wiped = record { account = do_nothing; storage = []; previous_status = 1; wipe_storage = true }

abbrev ended_evm : Evm ℕ ℕ
ended_evm = record {
  bundle_state = record { state = 20; reverts = ((5, wiped) ∷ []) ∷ [] ∷ [] };
  rest = 3;
}

abbrev ended_builder : FlashblocksBlockBuilder ℕ ℕ ℕ ℕ ℕ
ended_builder = record {
  executor = record {
    inner = record { evm = ended_evm; ctx = 4; receipts = []; gas_used = 42000; others = 0 };
  };
  ctx = 4;
  parent = 77;
  transactions = two_txs;
}

abbrev ended_totals : Totals (BundleState ℕ)
ended_totals = record {
  bundle_state = ended_evm.bundle_state;
  cumulative_gas_used = 42000;
  fees = 9;
  receipts = [];
}

abbrev ended_publication : Publication ℕ
ended_publication = record {
  block = record {
    payload_id = 7;
    parent_hash = 77;
    number = 10;
    timestamp = 100;
    base_fee = 1;
    base_bundle_state = no_changes;
    evm_env = small_env;
    extra_data = 1 ∷ [];
    parent_beacon_block_root = some 8;
  };
  latest_barrier = none;
  span = [];
  history = two_txs;
  cumulative_da_footprint = some 400;
  alloy_bal = [];
}

abbrev ended_payload : BuiltPayload ℕ
unfolding seal withdrawals_and_requests blob_fields
ended_payload = elim (seal small_chain small_provider ended_publication ended_totals) [
  | ok payload ↦ payload
  | err _ ↦ small_built
]

seals : seal small_chain small_provider ended_publication ended_totals ≡ ok ended_payload
unfolding seal withdrawals_and_requests blob_fields
seals = refl

abbrev ended_outcome : BlockBuilderOutcome
ended_outcome = record {
  execution_result = record { receipts = []; gas_used = 42000 };
  hashed_state = 20;
  trie_updates = 20;
  block = record small_built.block { transactions = (7 ∷ 1 ∷ []) ∷ (9 ∷ 1 ∷ []) ∷ [] };
  senders = 7 ∷ 9 ∷ [];
}

ends : finish small_chain small_library ended_builder small_provider ≡ ok ended_outcome
unfolding finish
ends = refl

finish-Agrees-seal_example :
    Agrees small_chain small_library small_provider ended_outcome ended_payload
finish-Agrees-seal_example =
    finish-Agrees-seal small_chain small_library small_provider ended_builder ended_evm
      (record { receipts = []; gas_used = 42000 }) ended_outcome ended_publication ended_totals
      ended_payload refl refl refl ends seals
