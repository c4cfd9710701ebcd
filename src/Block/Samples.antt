-- ===== src/Block/Samples.antt =====
-- A small chain and engine for the tests: every fork is active, and each transaction uses 21000 gas.
use rblib_world_chain.Prelude.{
  ℕ, zero, ◌+◌, true, Option, none, some, List, [], ◌∷◌, ◌++◌, map, ok, length,
}
use rblib_world_chain.Primitives.Data.{Bytes, AccountChanges}
use rblib_world_chain.Executor.Request.{Node, BuildRequest, PayloadAttributes}
use rblib_world_chain.Receipts.{TxType, deposit_receipt, eip1559_receipt}
use rblib_world_chain.Block.{BundleState, BuiltPayload, ExecutedBlock, EvmEnv, Chain, StateProvider}
use rblib_world_chain.Block.Builder.{AccountBal, Engine, Parent}

-- The second byte 0 marks a deposit; the first byte is the signer.
abbrev type_of : Bytes → TxType
type_of (a ∷ zero ∷ rest) = TxType.deposit
type_of bytes = TxType.eip1559

abbrev signer_of : Bytes → Option ℕ
signer_of [] = none
signer_of (a ∷ rest) = some a

-- A bundle is its number of changes.
abbrev pub small_chain : Chain ℕ
small_chain = record {
  is_canyon_active = λ timestamp. true;
  is_ecotone_active = λ timestamp. true;
  is_holocene_active = λ timestamp. true;
  is_isthmus_active = λ timestamp. true;
  is_jovian_active = λ timestamp. true;
  tx_type = type_of;
  effective_tip_per_gas = λ base_fee tx. some 2;
  recover_signer = signer_of;
  extend = λ a b. record { state = a.state + b.state; reverts = a.reverts ++ b.reverts };
  order = λ t. t;
  calculate_transaction_root = length;
  calculate_receipt_root = λ receipts timestamp. length receipts;
  logs_bloom = length;
  compute_block_access_list_hash = length;
  empty_ommer_root_hash = 1;
  empty_requests_hash = 2;
  empty_withdrawals = 3;
  beacon_nonce = 0;
}

abbrev pub small_provider : StateProvider ℕ
small_provider = record {
  basic = λ signer. ok (some 7);
  withdrawals_root = λ bundle. ok bundle.state;
  hashed_post_state = λ bundle. bundle.state;
  state_root_with_updates = λ hashed. ok (hashed + 1, hashed);
}

abbrev pub small_env : EvmEnv
small_env = record {
  beneficiary = 5;
  prevrandao = some 6;
  basefee = 1;
  number = 10;
  gas_limit = 30000000;
  difficulty = 0;
}

abbrev pub small_parent : Parent
small_parent = record { hash = 77; number = 9; gas_limit = 30000000 }

abbrev pub no_changes : BundleState ℕ
no_changes = record { state = 0; reverts = [] }

abbrev changes_of : ℕ × AccountBal (List ℕ) (List ℕ) → AccountChanges
changes_of (address, bal) = record {
  address = address;
  storage_changes = bal.storage;
  storage_reads = [];
  balance_changes = bal.account_info;
  nonce_changes = [];
  code_changes = [];
}

abbrev pub small_engine : Engine ℕ ℕ ℕ (List ℕ) (List ℕ)
small_engine = record {
  open_state = λ db bundle. db + bundle.state;
  default_bundle = no_changes;
  apply_pre_execution_changes = λ state. ok state;
  basic = λ state signer. ok (some 7);
  transact = λ env state tx. ok (
    record { state = 10; reverts = [] ∷ [] },
    record { is_success = true; gas_used = 21000; logs = [] },
    state.bal_state.bal_builder,
  );
  extend_info = ◌++◌;
  extend_storage = ◌++◌;
  try_from_alloy = λ a.
      some (a.address, record { account_info = a.balance_changes; storage = a.storage_changes });
  from_iter = λ entries. entries;
  into_alloy_bal = map changes_of;
  holocene_extra_data = λ attributes. ok (1 ∷ []);
  next_evm_env = λ parent next. ok small_env;
  context_for_next_block = λ parent next. ok tt;
}

-- The node around the builder, which replaces its `build`.
abbrev pub small_node : Node Bytes (BuiltPayload ℕ) (ExecutedBlock ℕ) Parent EvmEnv ℕ
small_node = record {
  built_id = λ built. built.id;
  executed_block = λ built. built.executed_block;
  decode_2718_exact = λ bytes. some bytes;
  eip_1559_params = λ timestamp. some timestamp;
  header_answers = λ hash. none ∷ some (some small_parent) ∷ [];
  state_by_block_hash = λ hash. some 0;
  next_evm_env = λ header next. some small_env;
  build = λ r. none;
}

abbrev pub small_attributes : PayloadAttributes Bytes
small_attributes = record {
  payload_attributes = record {
    id = 7;
    parent = 77;
    timestamp = 100;
    suggested_fee_recipient = 5;
    prev_randao = 6;
    withdrawals = [];
    parent_beacon_block_root = some 8;
  };
  no_tx_pool = true;
  transactions = ((7 ∷ 0 ∷ []), (7 ∷ 0 ∷ [])) ∷ ((7 ∷ 1 ∷ []), (7 ∷ 1 ∷ [])) ∷ [];
  gas_limit = none;
  eip_1559_params = some 1;
  min_base_fee = none;
}

-- The request for a first flashblock with a deposit and a transaction that pays a fee.
abbrev pub small_request : BuildRequest Bytes (BuiltPayload ℕ) Parent EvmEnv ℕ
small_request = record {
  attributes = small_attributes;
  parent = small_parent;
  db = 0;
  committed_payload = none;
  bal = some [];
  evm_env = small_env;
  extra_data = 1 ∷ [];
}

-- What the builder builds for it.
abbrev pub small_built : BuiltPayload ℕ
small_built = record {
  id = 7;
  block = record {
    header = record {
      parent_hash = 77;
      ommers_hash = 1;
      beneficiary = 5;
      state_root = 21;
      transactions_root = 2;
      receipts_root = 2;
      withdrawals_root = some 20;
      logs_bloom = 0;
      timestamp = 100;
      mix_hash = 6;
      nonce = 0;
      base_fee_per_gas = some 1;
      number = 10;
      gas_limit = 0;
      difficulty = 0;
      gas_used = 42000;
      extra_data = 1 ∷ [];
      parent_beacon_block_root = some 8;
      blob_gas_used = some 0;
      excess_blob_gas = some 0;
      requests_hash = some 2;
      block_access_list_hash = some 0;
    };
    transactions = (7 ∷ 0 ∷ []) ∷ (7 ∷ 1 ∷ []) ∷ [];
    withdrawals = some [];
    block_access_list = some [];
  };
  fees = 42000;
  executed_block = some (record {
    senders = 7 ∷ 7 ∷ [];
    bundle = record { state = 20; reverts = [] ∷ [] };
    receipts =
        (deposit_receipt (record { status = true; cumulative_gas_used = 21000; logs = [] }) (some 7)
            (some 1)
          ∷ eip1559_receipt (record { status = true; cumulative_gas_used = 42000; logs = [] })
          ∷ [])
        ∷ [];
    first_block = 10;
    hashed_state = 20;
    trie_updates = 20;
  });
}
