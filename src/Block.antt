-- ===== src/Block.antt =====
-- The blocks that src/step/publish_flashblocks.rs (the publisher) and src/flashblocks/builder.rs (the
-- builder) make: the header, the built payload, and what both read of the chain, the EVM environment
-- and the state.
-- A signed transaction is its encoding. revm's account states are a parameter; of a `BundleState`
-- the code itself touches only the reverts.
pub mod Publisher
pub mod Builder
pub mod Follower
pub mod Agreement
pub mod Convert
pub mod Executor
pub mod Samples
mod Tests
use rblib_world_chain.Prelude.{
  ℕ, Bool, Option, none, some, List, [], ◌∷◌, ◌++◌, map, Result, ok, err, ◌>>=◌, if◌then◌else◌,
}
use rblib_world_chain.Primitives.Data.{Bytes, BlockAccessList}
use rblib_world_chain.Receipts
use rblib_world_chain.Receipts.{
  TxType, Tx, OpReceipt, deposit_receipt, legacy_receipt, eip2930_receipt, eip1559_receipt,
  eip7702_receipt, Nonces,
}
use rblib_world_chain.Reverts.{Transition, Reverts, flatten_reverts}

-- `external` is an error of a library, by its code.
pub data Error : Type 0 where
  missing_payload recovery_failed panicked : Error
  receipt : Receipts.Error → Error
  external : ℕ → Error

-- `Recovered<OpTxEnvelope>`
pub record Recovered : Type 0 where
  pub tx : Bytes
  pub signer : ℕ

pub record BundleState (Accounts : Type 0) : Type 0 where
  pub state : Accounts
  pub reverts : Reverts

pub record Header : Type 0 where
  pub parent_hash : ℕ
  pub ommers_hash : ℕ
  pub beneficiary : ℕ
  pub state_root : ℕ
  pub transactions_root : ℕ
  pub receipts_root : ℕ
  pub withdrawals_root : Option ℕ
  pub logs_bloom : ℕ
  pub timestamp : ℕ
  pub mix_hash : ℕ
  pub nonce : ℕ
  pub base_fee_per_gas : Option ℕ
  pub number : ℕ
  pub gas_limit : ℕ
  pub difficulty : ℕ
  pub gas_used : ℕ
  pub extra_data : Bytes
  pub parent_beacon_block_root : Option ℕ
  pub blob_gas_used : Option ℕ
  pub excess_blob_gas : Option ℕ
  pub requests_hash : Option ℕ
  pub block_access_list_hash : Option ℕ

-- `Block` with its body; the ommers are always the default.
pub record Block : Type 0 where
  pub header : Header
  pub transactions : List Bytes
  pub withdrawals : Option (List ℕ)
  pub block_access_list : Option BlockAccessList

-- `BuiltPayloadExecutedBlock`, with the fields of its `ExecutionOutcome`.
pub record ExecutedBlock (Accounts : Type 0) : Type 0 where
  pub senders : List ℕ
  pub bundle : BundleState Accounts
  pub receipts : List (List OpReceipt)
  pub first_block : ℕ
  pub hashed_state : ℕ
  pub trie_updates : ℕ

pub record BuiltPayload (Accounts : Type 0) : Type 0 where
  pub id : ℕ
  pub block : Block
  pub fees : ℕ
  pub executed_block : Option (ExecutedBlock Accounts)

-- What the code reads of an `EvmEnv<OpSpecId>`.
pub record EvmEnv : Type 0 where
  pub beneficiary : ℕ
  pub prevrandao : Option ℕ
  pub basefee : ℕ
  pub number : ℕ
  pub gas_limit : ℕ
  pub difficulty : ℕ

-- What a transaction's receipt logs.
abbrev pub logs_of : OpReceipt → List ℕ
logs_of (deposit_receipt r sender_nonce version) = r.logs
logs_of (legacy_receipt r) = r.logs
logs_of (eip2930_receipt r) = r.logs
logs_of (eip1559_receipt r) = r.logs
logs_of (eip7702_receipt r) = r.logs

abbrev pub flat_map {ℓ κ} : {A : Type ℓ} {B : Type κ} → (A → List B) → List A → List B
flat_map f [] = []
flat_map f (x ∷ xs) = f x ++ flat_map f xs

-- `option.unwrap_or(d)`
abbrev pub unwrap_or {ℓ} : {A : Type ℓ} → Option A → A → A
unwrap_or none d = d
unwrap_or (some a) d = a

-- The libraries that both sides call: the chain specification by timestamp, transactions, roots.
pub record Chain (Accounts : Type 0) : Type 0 where
  pub is_canyon_active : ℕ → Bool
  pub is_ecotone_active : ℕ → Bool
  pub is_holocene_active : ℕ → Bool
  pub is_isthmus_active : ℕ → Bool
  pub is_jovian_active : ℕ → Bool
  pub tx_type : Bytes → TxType
  -- at a base fee
  pub effective_tip_per_gas : ℕ → Bytes → Option ℕ
  pub recover_signer : Bytes → Option ℕ
  -- `BundleState::extend`, and the order in which a map of reverts is turned into a vector
  pub extend : BundleState Accounts → BundleState Accounts → BundleState Accounts
  pub order : Transition → Transition
  pub calculate_transaction_root : List Recovered → ℕ
  pub calculate_receipt_root : List OpReceipt → ℕ → ℕ
  pub logs_bloom : List ℕ → ℕ
  pub compute_block_access_list_hash : BlockAccessList → ℕ
  pub empty_ommer_root_hash : ℕ
  pub empty_requests_hash : ℕ
  pub empty_withdrawals : ℕ
  pub beacon_nonce : ℕ

-- A `StateProvider`.
pub record StateProvider (Accounts : Type 0) : Type 0 where
  pub basic : Nonces
  pub withdrawals_root : BundleState Accounts → Result Error ℕ
  pub hashed_post_state : BundleState Accounts → ℕ
  -- the state root and the trie updates
  pub state_root_with_updates : ℕ → Result Error (ℕ × ℕ)

module _ {Accounts : Type 0} (chain : Chain Accounts) where
  -- A recovered transaction as the loops over the results read it.
  abbrev pub tx_of : ℕ → Recovered → Tx
  tx_of base_fee r = record {
    tx_type = chain.tx_type r.tx;
    signer = r.signer;
    effective_tip = chain.effective_tip_per_gas base_fee r.tx;
  }

  -- `bundle_state.reverts = flatten_reverts(&bundle_state.reverts)`
  abbrev pub flatten_bundle : BundleState Accounts → BundleState Accounts
  flatten_bundle bundle = record bundle { reverts = flatten_reverts chain.order bundle.reverts }

  -- The withdrawals root and the requests hash.
  unfoldable pub withdrawals_and_requests :
      StateProvider Accounts → BundleState Accounts → ℕ → Result Error (Option ℕ × Option ℕ)
  withdrawals_and_requests provider bundle timestamp =
      if chain.is_isthmus_active timestamp
      then (provider.withdrawals_root bundle >>= λ root.
          ok (some root, some chain.empty_requests_hash))
      else if chain.is_canyon_active timestamp
      then ok (some chain.empty_withdrawals, none)
      else ok (none, none)

  -- `excess_blob_gas` and `blob_gas_used`, where Jovian stores a footprint in the latter.
  unfoldable pub blob_fields : ℕ → ℕ → Option ℕ × Option ℕ
  blob_fields footprint timestamp =
      if chain.is_jovian_active timestamp
      then (some 0, some footprint)
      else if chain.is_ecotone_active timestamp
      then (some 0, some 0)
      else (none, none)

-- The end of both functions: the block, its senders and its execution, as a payload.
abbrev pub assemble_payload :
    {Accounts : Type 0}
    → (id : ℕ) → Header
    → List Recovered
    → Option BlockAccessList
    → (fees number : ℕ) → List OpReceipt
    → BundleState Accounts
    → (hashed_state trie_updates : ℕ) → BuiltPayload Accounts
assemble_payload id header txs bal fees number receipts bundle hashed_state trie_updates = record {
  id = id;
  block = record {
    header = header;
    transactions = map (λ r. r.tx) txs;
    withdrawals = some [];
    block_access_list = bal;
  };
  fees = fees;
  executed_block = some (record {
    senders = map (λ r. r.signer) txs;
    bundle = bundle;
    receipts = receipts ∷ [];
    first_block = number;
    hashed_state = hashed_state;
    trie_updates = trie_updates;
  });
}
