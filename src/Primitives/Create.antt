-- ===== src/Primitives/Create.antt =====
-- `Flashblock::new` of src/flashblocks/primitives.rs: the part of a built payload that has not been
-- published yet, cut off at an offset. The clock, the block and the attributes are arguments; a
-- transaction type and its 2718 encoding are parameters.
pub mod Cut
use mathlib.Core.Option
use rblib_world_chain.Prelude.{ℕ, Option, none, some, List, [], map, drop, ◌==◌, if◌then◌else◌}
use rblib_world_chain.Primitives.Data.{Flashblock, Bytes, BlockAccessList, ExecutionPayloadBaseV1}

-- `option.unwrap_or(d)`
abbrev pub unwrap_or {ℓ} : {A : Type ℓ} → Option A → A → A
unwrap_or none d = d
unwrap_or (some a) d = a

-- What the crate reads of an `OpBuiltPayload` and its block.
pub record BuiltBlock (Tx : Type 0) : Type 0 where
  pub state_root : ℕ
  pub receipts_root : ℕ
  pub logs_bloom : ℕ
  pub gas_used : ℕ
  pub hash : ℕ
  pub number : ℕ
  pub gas_limit : ℕ
  pub extra_data : Bytes
  pub base_fee_per_gas : Option ℕ
  pub withdrawals_root : Option ℕ
  pub transactions : List Tx
  pub withdrawals : Option (List ℕ)
  pub fees : ℕ

-- What the function reads of the payload attributes of `PayloadConfig`.
pub record Attributes : Type 0 where
  pub payload_id : ℕ
  pub parent : ℕ
  pub parent_beacon_block_root : Option ℕ
  pub suggested_fee_recipient : ℕ
  pub prev_randao : ℕ
  pub timestamp : ℕ

module _ {Tx : Type 0} (encoded_2718 : Tx → Bytes) where
  -- the base, of the first flashblock only
  base_of : BuiltBlock Tx → Attributes → ℕ → Option ExecutionPayloadBaseV1
  base_of block attributes index =
      if index == 0
      then some (record {
        parent_beacon_block_root = unwrap_or attributes.parent_beacon_block_root 0;
        parent_hash = attributes.parent;
        fee_recipient = attributes.suggested_fee_recipient;
        prev_randao = attributes.prev_randao;
        block_number = block.number;
        gas_limit = block.gas_limit;
        timestamp = attributes.timestamp;
        extra_data = block.extra_data;
        base_fee_per_gas = unwrap_or block.base_fee_per_gas 0;
      })
      else none

  unfoldable pub new :
      (now : ℕ)
      → BuiltBlock Tx
      → Attributes
      → (index transactions_offset withdrawal_offset : ℕ) → Option BlockAccessList
      → Flashblock
  unfolding base_of
  new now block attributes index transactions_offset withdrawal_offset bal = record {
    flashblock = record {
      payload_id = attributes.payload_id;
      index = index;
      base = base_of block attributes index;
      diff = record {
        state_root = block.state_root;
        receipts_root = block.receipts_root;
        logs_bloom = block.logs_bloom;
        gas_used = block.gas_used;
        block_hash = block.hash;
        transactions = map encoded_2718 (drop transactions_offset block.transactions);
        withdrawals = unwrap_or (Option.map (drop withdrawal_offset) block.withdrawals) [];
        withdrawals_root = unwrap_or block.withdrawals_root 0;
        block_access_list = bal;
      };
      metadata = record { fees = block.fees; flashblock_timestamp = some now };
    };
  }
