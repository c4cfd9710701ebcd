-- ===== src/Primitives/Data.antt =====
-- The structs of src/flashblocks/primitives.rs, field by field, and the wrapper `Flashblock` with
-- its accessors.
use rblib_world_chain.Prelude.{ℕ, Option, List, none, []}

-- One account of an EIP-7928 access list, with the five kinds of changes that the crate touches.
pub record AccountChanges : Type 0 where
  pub address : ℕ
  pub storage_changes : List ℕ
  pub storage_reads : List ℕ
  pub balance_changes : List ℕ
  pub nonce_changes : List ℕ
  pub code_changes : List ℕ

abbrev pub BlockAccessList : Type 0
BlockAccessList = List AccountChanges

abbrev pub Bytes : Type 0
Bytes = List ℕ

pub record ExecutionPayloadFlashblockDeltaV1 : Type 0 where
  pub state_root : ℕ
  pub receipts_root : ℕ
  pub logs_bloom : ℕ
  pub gas_used : ℕ
  pub block_hash : ℕ
  pub transactions : List Bytes
  pub withdrawals : List ℕ
  pub withdrawals_root : ℕ
  pub block_access_list : Option BlockAccessList

pub record ExecutionPayloadBaseV1 : Type 0 where
  pub parent_beacon_block_root : ℕ
  pub parent_hash : ℕ
  pub fee_recipient : ℕ
  pub prev_randao : ℕ
  pub block_number : ℕ
  pub gas_limit : ℕ
  pub timestamp : ℕ
  pub extra_data : Bytes
  pub base_fee_per_gas : ℕ

pub record FlashblockMetadata : Type 0 where
  pub fees : ℕ
  pub flashblock_timestamp : Option ℕ

pub record FlashblocksPayloadV1 (M : Type 0) : Type 0 where
  pub payload_id : ℕ
  pub index : ℕ
  pub diff : ExecutionPayloadFlashblockDeltaV1
  pub metadata : M
  pub base : Option ExecutionPayloadBaseV1

-- `FlashblocksPayloadV1` with its default metadata.
abbrev pub Payload : Type 0
Payload = FlashblocksPayloadV1 FlashblockMetadata

-- The `Default` instances that the structs derive.
abbrev pub default_base : ExecutionPayloadBaseV1
default_base = record {
  parent_beacon_block_root = 0;
  parent_hash = 0;
  fee_recipient = 0;
  prev_randao = 0;
  block_number = 0;
  gas_limit = 0;
  timestamp = 0;
  extra_data = [];
  base_fee_per_gas = 0;
}

abbrev pub default_diff : ExecutionPayloadFlashblockDeltaV1
default_diff = record {
  state_root = 0;
  receipts_root = 0;
  logs_bloom = 0;
  gas_used = 0;
  block_hash = 0;
  transactions = [];
  withdrawals = [];
  withdrawals_root = 0;
  block_access_list = none;
}

pub record Flashblock : Type 0 where
  pub flashblock : Payload
  pub open flashblock use *

abbrev pub into_flashblock : Flashblock → Payload
into_flashblock fb = fb.flashblock
