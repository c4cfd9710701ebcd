-- ===== src/Block/Builder.antt =====
-- src/flashblocks/builder.rs: `FlashblockBuilder::build` and `block_builder`, with the constructors
-- of block_builder.rs and block_executor.rs that the latter calls.
-- revm's access lists by account, its database and its state are parameters. The results of the
-- parallel executions are listed in the order of the transactions, as rayon collects them; if
-- several executions fail, the error is that of the first.
pub mod Build
pub mod Payload
pub mod Order
use rblib_world_chain.Prelude.{
  ℕ, ◌+◌, ◌%◌, u64_mod, Option, none, some, List, [], ◌∷◌, ◌++◌, Result, ok, err, ◌>>=◌, ok_or,
  collect, ◌==◌, leb, if◌then◌else◌, length,
}
use rblib_world_chain.Primitives.Data.{Bytes, AccountChanges, BlockAccessList}
use rblib_world_chain.Executor.Request.{PayloadAttributes, NextBlock, BuildRequest}
use rblib_world_chain.Receipts
use rblib_world_chain.Receipts.{ExecutionResult, OpReceipt}
use rblib_world_chain.Receipts.Parallel.{ParallelResult}
use rblib_world_chain.Block.{
  Error, missing_payload, recovery_failed, panicked, Recovered, BundleState, BuiltPayload, EvmEnv,
  Chain, unwrap_or, flat_map, tx_of,
}
use rblib_world_chain.Block.Executor.{
  Evm, FlashblocksBlockExecutor, FlashblocksBlockBuilder, new, new_builder, with_receipts,
  with_gas_used,
}

-- revm's `AccountBal`, and `Bal` by address in the order of insertion.
pub record AccountBal (Info Slots : Type 0) : Type 0 where
  pub account_info : Info
  pub storage : Slots

abbrev pub Bal : Type 0 → Type 0 → Type 0
Bal Info Slots = List (ℕ × AccountBal Info Slots)

pub record BalState (Info Slots : Type 0) : Type 0 where
  pub bal_builder : Option (Bal Info Slots)
  pub bal : Option (Bal Info Slots)
  pub bal_index : ℕ

-- revm's `State`: what it holds of the database, and the state of its access lists.
pub record State (Cache Info Slots : Type 0) : Type 0 where
  pub cache : Cache
  pub bal_state : BalState Info Slots

-- What one parallel execution gives: its result, and the access list built by it.
pub record Executed (Accounts Info Slots : Type 0) : Type 0 where
  pub result : ParallelResult (BundleState Accounts)
  pub bal : Option (Bal Info Slots)

-- `SealedHeader` of the parent, as the code reads it.
pub record Parent : Type 0 where
  pub hash : ℕ
  pub number : ℕ
  pub gas_limit : ℕ

-- The parts of revm and of the optimism crates that the builder calls.
pub record Engine (Accounts Db Cache Info Slots : Type 0) : Type 0 where
  -- a new `State` over the database and a bundle
  pub open_state : Db → BundleState Accounts → Cache
  pub default_bundle : BundleState Accounts
  pub apply_pre_execution_changes : State Cache Info Slots → Result Error (State Cache Info Slots)
  -- the nonce of an account, if it is there
  pub basic : State Cache Info Slots → ℕ → Result Receipts.Error (Option ℕ)
  -- `transact_commit`, `merge_transitions`, `take_bundle` and `take_built_bal`
  pub transact :
      EvmEnv
      → State Cache Info Slots
      → Recovered
      → Result Error (BundleState Accounts × ExecutionResult × Option (Bal Info Slots))
  pub extend_info : Info → Info → Info
  pub extend_storage : Slots → Slots → Slots
  pub try_from_alloy : AccountChanges → Option (ℕ × AccountBal Info Slots)
  pub from_iter : List (ℕ × AccountBal Info Slots) → Bal Info Slots
  pub into_alloy_bal : Bal Info Slots → BlockAccessList
  -- `get_holocene_extra_data`, `next_evm_env` and `context_for_next_block`
  pub holocene_extra_data : PayloadAttributes Bytes → Result Error Bytes
  pub next_evm_env : Parent → NextBlock → Result Error EvmEnv
  pub context_for_next_block : Parent → NextBlock → Result Error (Unit {0})

-- What the first step takes over from the committed payload.
pub record Prepared (Accounts : Type 0) : Type 0 where
  pub bundle : BundleState Accounts
  pub receipts : List OpReceipt
  pub transactions : List Recovered
  pub gas_used : Option ℕ
  pub fees : ℕ
  pub previous_bal : Option BlockAccessList
  pub transactions_offset : ℕ

-- The indices of transactions from an offset on.
abbrev pub index_from {ℓ} : {A : Type ℓ} → ℕ → List A → List (ℕ × A)
index_from offset [] = []
index_from offset (x ∷ xs) = (offset % u64_mod, x) ∷ index_from (offset + 1) xs

module _ {Accounts Info Slots : Type 0} where
  -- `sort_unstable_by_key(|r| r.index)`
  unfoldable pub insert_by_index :
      Executed Accounts Info Slots
      → List (Executed Accounts Info Slots)
      → List (Executed Accounts Info Slots)
  insert_by_index x [] = x ∷ []
  insert_by_index x (y ∷ ys) =
      if leb x.result.index y.result.index then x ∷ y ∷ ys else y ∷ insert_by_index x ys

  unfoldable pub sort_by_index :
      List (Executed Accounts Info Slots) → List (Executed Accounts Info Slots)
  unfolding insert_by_index
  sort_by_index [] = []
  sort_by_index (x ∷ xs) = insert_by_index x (sort_by_index xs)

module _ {Accounts Db Cache Info Slots : Type 0} (chain : Chain Accounts)
    (engine : Engine Accounts Db Cache Info Slots) where
  abbrev pub recover : Bytes → Result Error Recovered
  recover tx = elim (chain.recover_signer tx) [
    | none ↦ err recovery_failed
    | some signer ↦ ok (record { tx = tx; signer = signer })
  ]

  -- The committed payload's totals, with the index after its transactions, or a fresh start.
  unfoldable pub prepare : Option (BuiltPayload Accounts) → Result Error (Prepared Accounts)
  prepare none = ok (record {
    bundle = engine.default_bundle;
    receipts = [];
    transactions = [];
    gas_used = none;
    fees = 0;
    previous_bal = some [];
    transactions_offset = 0;
  })
  prepare (some payload) = do
    executed ← ok_or payload.executed_block missing_payload
    transactions ← collect recover payload.block.transactions
    ok (record {
      bundle = executed.bundle;
      receipts = flat_map (λ rs. rs) executed.receipts;
      transactions = transactions;
      gas_used = some payload.block.header.gas_used;
      fees = payload.fees;
      previous_bal = payload.block.block_access_list;
      transactions_offset = (length payload.block.transactions + 1) % u64_mod;
    })

  -- The `expect` on each account panics.
  abbrev pub bal_of : BlockAccessList → Result Error (Bal Info Slots)
  bal_of accounts = collect (λ a. ok_or (engine.try_from_alloy a) panicked) accounts >>= λ bal_vec.
      ok (engine.from_iter bal_vec)

  abbrev pub no_bal_state : BalState Info Slots
  no_bal_state = record { bal_builder = none; bal = none; bal_index = 0 }

  -- The two access lists: the previous one seeds the one that is built, and the one that came with
  -- the flashblock is used to execute.
  unfoldable pub bal_state_of :
      Option BlockAccessList → Option BlockAccessList → ℕ → Result Error (BalState Info Slots)
  bal_state_of previous_bal bal offset = do
    bal_builder ← elim previous_bal [ none ↦ ok [] | some previous ↦ bal_of previous ]
    elim bal [
      | none ↦ ok no_bal_state
      | some accounts ↦
          (bal_of accounts >>= λ used.
          ok (record { bal_builder = some bal_builder; bal = some used; bal_index = offset }))
    ]

  -- The attributes of the next block, the environment and the executor.
  unfoldable pub block_builder :
      Prepared Accounts
      → PayloadAttributes Bytes
      → Parent
      → Result Error (FlashblocksBlockBuilder Accounts EvmEnv (Unit {0}) (Unit {0}) Parent)
  block_builder prepared attributes parent = do
    extra_data ←
        if chain.is_holocene_active attributes.payload_attributes.timestamp
        then engine.holocene_extra_data attributes
        else ok []
    evm_env ← engine.next_evm_env parent (next_block extra_data)
    execution_ctx ← engine.context_for_next_block parent (next_block extra_data)
    ok (new_builder execution_ctx parent (executor_of evm_env execution_ctx) prepared.transactions)
    where
      next_block : Bytes → NextBlock
      next_block extra_data = record {
        timestamp = attributes.payload_attributes.timestamp;
        suggested_fee_recipient = attributes.payload_attributes.suggested_fee_recipient;
        prev_randao = attributes.payload_attributes.prev_randao;
        gas_limit = unwrap_or attributes.gas_limit parent.gas_limit;
        parent_beacon_block_root = attributes.payload_attributes.parent_beacon_block_root;
        extra_data = extra_data;
      }

      -- over the state that opens the committed bundle
      executor_of :
          EvmEnv → Unit {0} → FlashblocksBlockExecutor Accounts EvmEnv (Unit {0}) (Unit {0})
      executor_of evm_env execution_ctx =
          let evm : Evm Accounts EvmEnv = record {
            bundle_state = prepared.bundle;
            rest = evm_env;
          } in
          let executor = with_receipts (new (λ evm ctx. tt) evm execution_ctx) prepared.receipts in
          elim prepared.gas_used [ none ↦ executor | some gas ↦ with_gas_used executor gas ]
