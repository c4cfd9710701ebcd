-- ===== src/Block/Executor.antt =====
-- src/flashblocks/block_executor.rs: the block executor that can start from the state of earlier
-- flashblocks, and its factory; src/flashblocks/block_builder.rs: the end of a block that it executes.
-- The executor of alloy inside is a record of the fields that the code reads or sets; what its methods
-- do, the EVM, the transitions of the database and the assembler are the fields of `Library`, and its
-- other fields are carried as they are.
pub mod Finish
mod Tests
use rblib_world_chain.Prelude.{
  ℕ, ◌+◌, ◌%◌, u64_mod, Bool, Option, none, some, List, [], ◌++◌, map, Result, ok, ◌>>=◌,
}
use rblib_world_chain.Primitives.Data.{Bytes}
use rblib_world_chain.Receipts.{ExecutionResult, OpReceipt}
use rblib_world_chain.Block.{
  Error, Recovered, BundleState, Block, Chain, StateProvider, flatten_bundle,
}

-- An EVM over a database: its bundle, and the rest of it.
pub record Evm (Accounts Rest : Type 0) : Type 0 where
  pub bundle_state : BundleState Accounts
  pub rest : Rest

-- `OpBlockExecutor`; `others` are the fields that this code does not name, such as the specification,
-- the receipt builder and what the executor counts besides the gas.
pub record OpBlockExecutor (Accounts Rest Ctx Others : Type 0) : Type 0 where
  pub evm : Evm Accounts Rest
  pub ctx : Ctx
  pub receipts : List OpReceipt
  pub gas_used : ℕ
  pub others : Others

pub record FlashblocksBlockExecutor (Accounts Rest Ctx Others : Type 0) : Type 0 where
  pub inner : OpBlockExecutor Accounts Rest Ctx Others

-- The factory; its inner factory has the specification and the EVM factory only.
pub record Factory (Accounts : Type 0) : Type 0 where
  pub pre_state : Option (BundleState Accounts)

-- `BlockExecutionResult`
pub record BlockExecutionResult : Type 0 where
  pub receipts : List OpReceipt
  pub gas_used : ℕ

-- `BlockAssemblerInput`
pub record AssemblerInput (Accounts Rest Ctx Others Parent : Type 0) : Type 0 where
  pub evm_env : Rest
  pub execution_ctx : Ctx
  pub parent : Parent
  pub transactions : List Bytes
  pub output : BlockExecutionResult
  pub bundle_state : BundleState Accounts
  pub state_root : ℕ

-- A call of a method of `BlockExecutor` that changes it.
pub data Call (Output : Type 0) : Type 0 where
  apply_pre_execution_changes : Call Output
  execute_transaction_with_commit_condition : Recovered → (ExecutionResult → Bool) → Call Output
  execute_transaction_without_commit : Recovered → Call Output
  commit_transaction : Output → Recovered → Call Output
  -- a hook, by its identity
  set_state_hook : Option ℕ → Call Output

-- What such a call returns.
pub data Answer (Output : Type 0) : Type 0 where
  done : Answer Output
  committed : Option ℕ → Answer Output
  executed : Output → Answer Output
  gas : ℕ → Answer Output

-- `FlashblocksBlockBuilder`, with the fields of its `BasicBlockBuilder`; its assembler is that of the
-- library.
pub record FlashblocksBlockBuilder (Accounts Rest Ctx Others Parent : Type 0) : Type 0 where
  pub executor : FlashblocksBlockExecutor Accounts Rest Ctx Others
  pub ctx : Ctx
  pub parent : Parent
  pub transactions : List Recovered

-- alloy's executor, block builder and assembler, and revm's database.
pub record Library (Accounts Rest Ctx Others Parent Output : Type 0) : Type 0 where
  pub call :
      OpBlockExecutor Accounts Rest Ctx Others
      → Call Output
      → OpBlockExecutor Accounts Rest Ctx Others × Result Error (Answer Output)
  pub finish :
      OpBlockExecutor Accounts Rest Ctx Others
      → Result Error (Evm Accounts Rest × BlockExecutionResult)
  -- `merge_transitions(BundleRetention::Reverts)`
  pub merge_transitions : Evm Accounts Rest → BundleState Accounts
  pub assemble_block : AssemblerInput Accounts Rest Ctx Others Parent → Result Error Block
  -- the methods of `BasicBlockBuilder` that execute, which note what they commit
  pub builder_call :
      FlashblocksBlockBuilder Accounts Rest Ctx Others Parent
      → Call Output
      → FlashblocksBlockBuilder Accounts Rest Ctx Others Parent × Result Error (Answer Output)

-- `BlockBuilderOutcome`; the recovered block is the block and its senders.
pub record BlockBuilderOutcome : Type 0 where
  pub execution_result : BlockExecutionResult
  pub hashed_state : ℕ
  pub trie_updates : ℕ
  pub block : Block
  pub senders : List ℕ

module _ {Accounts Rest Ctx Others : Type 0} where
  -- `initial` is what `OpBlockExecutor::new` puts in the other fields.
  unfoldable pub new :
      (initial : Evm Accounts Rest → Ctx → Others)
      → Evm Accounts Rest
      → Ctx
      → FlashblocksBlockExecutor Accounts Rest Ctx Others
  new initial evm ctx = record {
    inner = record { evm = evm; ctx = ctx; receipts = []; gas_used = 0; others = initial evm ctx };
  }

  -- `FlashblocksBlockBuilder::new`
  unfoldable pub new_builder :
      {Parent : Type 0}
      → Ctx
      → Parent
      → FlashblocksBlockExecutor Accounts Rest Ctx Others
      → List Recovered
      → FlashblocksBlockBuilder Accounts Rest Ctx Others Parent
  new_builder ctx parent executor transactions = record {
    executor = executor;
    ctx = ctx;
    parent = parent;
    transactions = transactions;
  }

  unfoldable pub with_receipts :
      FlashblocksBlockExecutor Accounts Rest Ctx Others
      → List OpReceipt
      → FlashblocksBlockExecutor Accounts Rest Ctx Others
  with_receipts e receipts = record {
    inner = record e.inner { receipts = e.inner.receipts ++ receipts };
  }

  unfoldable pub with_gas_used :
      FlashblocksBlockExecutor Accounts Rest Ctx Others
      → ℕ
      → FlashblocksBlockExecutor Accounts Rest Ctx Others
  with_gas_used e gas_used = record {
    inner = record e.inner { gas_used = (e.inner.gas_used + gas_used) % u64_mod };
  }

module _ {Accounts : Type 0} where
  -- `FlashblocksBlockExecutorFactory::new`
  abbrev pub new_factory : Factory Accounts
  new_factory = record { pre_state = none }

  unfoldable pub set_pre_state : Factory Accounts → BundleState Accounts → Factory Accounts
  set_pre_state f pre_state = record { pre_state = some pre_state }

  unfoldable pub take_bundle : Factory Accounts → Factory Accounts × Option (BundleState Accounts)
  take_bundle f = (record { pre_state = none }, f.pre_state)

module _ {Accounts Rest Ctx Others : Type 0} (chain : Chain Accounts) where
  unfoldable pub with_bundle_prestate :
      FlashblocksBlockExecutor Accounts Rest Ctx Others
      → BundleState Accounts
      → FlashblocksBlockExecutor Accounts Rest Ctx Others
  with_bundle_prestate e pre_state = record {
    inner = record e.inner {
      evm = record e.inner.evm { bundle_state = chain.extend e.inner.evm.bundle_state pre_state };
    };
  }

  -- The factory keeps its pre-state, of which the executor takes a clone.
  unfoldable pub create_executor :
      (initial : Evm Accounts Rest → Ctx → Others)
      → Factory Accounts
      → Evm Accounts Rest
      → Ctx
      → FlashblocksBlockExecutor Accounts Rest Ctx Others
  unfolding new with_bundle_prestate
  create_executor initial f evm ctx = elim f.pre_state [
    | some pre_state ↦ with_bundle_prestate (new initial evm ctx) pre_state
    | none ↦ new initial evm ctx
  ]

module _ {Accounts Rest Ctx Others Parent Output : Type 0} (chain : Chain Accounts)
    (library : Library Accounts Rest Ctx Others Parent Output) where
  -- The methods of `BlockExecutor` that execute, passed on to the executor inside.
  unfoldable pub call :
      FlashblocksBlockExecutor Accounts Rest Ctx Others
      → Call Output
      → FlashblocksBlockExecutor Accounts Rest Ctx Others × Result Error (Answer Output)
  call e c = let (inner, answer) = library.call e.inner c in (record { inner = inner }, answer)

  -- The methods of `BlockBuilder` that execute, passed on to the builder inside.
  unfoldable pub call_builder :
      FlashblocksBlockBuilder Accounts Rest Ctx Others Parent
      → Call Output
      → FlashblocksBlockBuilder Accounts Rest Ctx Others Parent × Result Error (Answer Output)
  call_builder b c = library.builder_call b c

  -- `FlashblocksBlockAssembler`: the assembler of the library.
  unfoldable pub assemble_block :
      AssemblerInput Accounts Rest Ctx Others Parent → Result Error Block
  assemble_block input = library.assemble_block input

  -- `FlashblocksBlockBuilder::finish`
  unfoldable pub finish :
      FlashblocksBlockBuilder Accounts Rest Ctx Others Parent
      → StateProvider Accounts
      → Result Error BlockBuilderOutcome
  finish b state = do
    (evm, result) ← library.finish b.executor.inner
    let bundle = flatten_bundle chain (library.merge_transitions evm)
    let hashed_state = state.hashed_post_state bundle
    (state_root, trie_updates) ← state.state_root_with_updates hashed_state
    block ← library.assemble_block (record {
      evm_env = evm.rest;
      execution_ctx = b.ctx;
      parent = b.parent;
      transactions = map (λ r. r.tx) b.transactions;
      output = result;
      bundle_state = bundle;
      state_root = state_root;
    })
    ok (record {
      execution_result = result;
      hashed_state = hashed_state;
      trie_updates = trie_updates;
      block = block;
      senders = map (λ r. r.signer) b.transactions;
    })
