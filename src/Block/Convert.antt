-- ===== src/Block/Convert.antt =====
-- src/flashblocks/primitives.rs: the conversions of a flashblock, and of a collection, to a recovered
-- block. The decoder of a transaction and the trie root are parameters.
pub mod RoundTrip
mod Tests
use rblib_world_chain.Prelude.{
  ℕ, u64_mod, Option, none, some, List, [], ◌∷◌, Result, ok, err, ◌>>=◌, ok_or, collect, leb,
  if◌then◌else◌,
}
use mathlib.Core.Option
use rblib_world_chain.Primitives.Data.{
  Bytes, Flashblock, ExecutionPayloadBaseV1, ExecutionPayloadFlashblockDeltaV1,
}
use rblib_world_chain.Primitives.Collection.{Flashblocks}
use rblib_world_chain.Primitives.Reduce.{reduce}
use rblib_world_chain.Block.{Header, Block, Chain}

-- `panicked` is the overflow of `base_fee_per_gas.to()`.
pub data Error : Type 0 where
  missing_base decode_failed recovery_failed nothing_to_reduce panicked : Error

pub record RecoveredBlock : Type 0 where
  pub block : Block
  pub senders : List ℕ

module _ {Accounts : Type 0} (chain : Chain Accounts) (ordered_trie_root : List Bytes → ℕ)
    (decode_2718 : Bytes → Option Bytes) where
  abbrev pub header_of : ExecutionPayloadBaseV1 → ExecutionPayloadFlashblockDeltaV1 → Header
  header_of base diff = record {
    parent_beacon_block_root = none;
    state_root = diff.state_root;
    receipts_root = diff.receipts_root;
    logs_bloom = diff.logs_bloom;
    withdrawals_root = some diff.withdrawals_root;
    parent_hash = base.parent_hash;
    base_fee_per_gas = some base.base_fee_per_gas;
    beneficiary = base.fee_recipient;
    transactions_root = ordered_trie_root diff.transactions;
    ommers_hash = chain.empty_ommer_root_hash;
    blob_gas_used = some 0;
    difficulty = 0;
    number = base.block_number;
    gas_limit = base.gas_limit;
    gas_used = diff.gas_used;
    timestamp = base.timestamp;
    extra_data = base.extra_data;
    mix_hash = base.prev_randao;
    nonce = chain.beacon_nonce;
    requests_hash = none;
    excess_blob_gas = some 0;
    block_access_list_hash = Option.map chain.compute_block_access_list_hash diff.block_access_list;
  }

  -- `Block::try_into_recovered`
  abbrev pub recover_block : Block → Result Error RecoveredBlock
  recover_block block =
      collect (λ tx. ok_or (chain.recover_signer tx) recovery_failed) block.transactions
      >>= λ senders. ok (record { block = block; senders = senders })

  abbrev pub decode_all : List Bytes → Result Error (List Bytes)
  decode_all txs = collect (λ tx. ok_or (decode_2718 tx) decode_failed) txs

  -- `TryFrom<Flashblock>`
  unfoldable pub try_from_flashblock : Flashblock → Result Error RecoveredBlock
  try_from_flashblock value = ok_or value.base missing_base >>= λ base.
      if leb u64_mod base.base_fee_per_gas
      then err panicked
      else (decode_all value.diff.transactions >>= λ transactions. recover_block (record {
        header = header_of base value.diff;
        transactions = transactions;
        withdrawals = some value.diff.withdrawals;
        block_access_list = value.diff.block_access_list;
      }))

  -- `TryFrom<Flashblocks>`
  unfoldable pub try_from_flashblocks : Flashblocks → Result Error RecoveredBlock
  unfolding try_from_flashblock
  try_from_flashblocks value = ok_or (reduce value) nothing_to_reduce >>= try_from_flashblock
