-- ===== src/Executor/Request.antt =====
-- src/flashblocks/state.rs, the middle of `process_flashblock`: from a flashblock and its base to the
-- request for the builder, and the node that answers it.
use rblib_world_chain.Prelude.{
  ℕ, Bool, true, Option, none, some, List, [], ◌∷◌, Result, ok, err, ◌>>=◌, ok_or, collect,
}
use mathlib.Core.Option
use rblib_world_chain.Primitives.Data.{Flashblock, ExecutionPayloadBaseV1, Bytes, BlockAccessList}
use rblib_world_chain.Primitives.Collection

-- Why `process_flashblock` fails. `retrying` stands for a call that is still fetching the header:
-- the retries have no limit.
pub data Error : Type 0 where
  refused : Collection.Error → Error
  bad_transaction bad_params no_state bad_env build_failed retrying : Error

pub record EthAttributes : Type 0 where
  pub id : ℕ
  pub parent : ℕ
  pub timestamp : ℕ
  pub suggested_fee_recipient : ℕ
  pub prev_randao : ℕ
  pub withdrawals : List ℕ
  pub parent_beacon_block_root : Option ℕ

-- `OpPayloadBuilderAttributes`, each transaction beside its encoding.
pub record PayloadAttributes (Tx : Type 0) : Type 0 where
  pub payload_attributes : EthAttributes
  pub no_tx_pool : Bool
  pub transactions : List (Bytes × Tx)
  pub gas_limit : Option ℕ
  pub eip_1559_params : Option ℕ
  pub min_base_fee : Option ℕ

-- `OpNextBlockEnvAttributes`
pub record NextBlock : Type 0 where
  pub timestamp : ℕ
  pub suggested_fee_recipient : ℕ
  pub prev_randao : ℕ
  pub gas_limit : ℕ
  pub parent_beacon_block_root : Option ℕ
  pub extra_data : Bytes

-- What the builder is called with.
pub record BuildRequest (Tx Built Header Env Db : Type 0) : Type 0 where
  pub attributes : PayloadAttributes Tx
  pub parent : Header
  pub db : Db
  pub committed_payload : Option Built
  pub bal : Option BlockAccessList
  pub evm_env : Env
  pub extra_data : Bytes

-- `BuildOutcomeKind`
pub data Outcome (Built : Type 0) : Type 0 where
  better freeze : Built → Outcome Built
  aborted cancelled : Outcome Built

pub record Node (Tx Built Executed Header Env Db : Type 0) : Type 0 where
  pub built_id : Built → ℕ
  pub executed_block : Built → Option Executed
  pub decode_2718_exact : Bytes → Option Tx
  -- the parameters at a timestamp, as eight bytes
  pub eip_1559_params : ℕ → Option ℕ
  -- what the successive calls of `sealed_header_by_hash` answer: an error, no header, or a header
  pub header_answers : ℕ → List (Option (Option Header))
  pub state_by_block_hash : ℕ → Option Db
  pub next_evm_env : Header → NextBlock → Option Env
  pub build : BuildRequest Tx Built Header Env Db → Option (Outcome Built)

-- One attempt: a missing header is an error too.
abbrev pub fetch_header {ℓ} : {H : Type ℓ} → Option (Option H) → Option H
fetch_header none = none
fetch_header (some header) = header

-- The attempts, until one succeeds.
abbrev pub retry {ℓ} : {H : Type ℓ} → List (Option (Option H)) → Result Error H
retry [] = err retrying
retry (answer ∷ answers) = elim (fetch_header answer) [ none ↦ retry answers | some h ↦ ok h ]

module _ {Tx Built Executed Header Env Db : Type 0}
    (node : Node Tx Built Executed Header Env Db) where
  abbrev pub decode : Bytes → Result Error (Bytes × Tx)
  decode b = ok_or (Option.map (λ tx. (b, tx)) (node.decode_2718_exact b)) bad_transaction

  -- The request, or the first error on the way to it.
  unfoldable pub build_request :
      Option (Built × ℕ)
      → Flashblock
      → ExecutionPayloadBaseV1
      → Result Error (BuildRequest Tx Built Header Env Db)
  build_request latest fb b = do
    transactions ← collect decode fb.diff.transactions
    eip1559 ← ok_or (node.eip_1559_params b.timestamp) bad_params
    sealed_header ← retry (node.header_answers b.parent_hash)
    db ← ok_or (node.state_by_block_hash b.parent_hash) no_state
    evm_env ← ok_or (node.next_evm_env sealed_header (next_block b)) bad_env
    ok (record {
      attributes = record {
        payload_attributes = record {
          id = fb.payload_id;
          parent = b.parent_hash;
          timestamp = b.timestamp;
          suggested_fee_recipient = b.fee_recipient;
          prev_randao = b.prev_randao;
          withdrawals = fb.diff.withdrawals;
          parent_beacon_block_root = some b.parent_beacon_block_root;
        };
        no_tx_pool = true;
        transactions = transactions;
        gas_limit = none;
        eip_1559_params = some eip1559;
        min_base_fee = none;
      };
      parent = sealed_header;
      db = db;
      committed_payload = Option.map (λ p. p.0) latest;
      bal = fb.diff.block_access_list;
      evm_env = evm_env;
      extra_data = b.extra_data;
    })
    where
      next_block : ExecutionPayloadBaseV1 → NextBlock
      next_block b = record {
        timestamp = b.timestamp;
        suggested_fee_recipient = b.fee_recipient;
        prev_randao = b.prev_randao;
        gas_limit = b.gas_limit;
        parent_beacon_block_root = some b.parent_beacon_block_root;
        extra_data = b.extra_data;
      }

  -- The built payload, if the outcome has one.
  abbrev pub payload_of : Outcome Built → Option Built
  payload_of (better built) = some built
  payload_of (freeze built) = some built
  payload_of aborted = none
  payload_of cancelled = none

  unfoldable pub build_payload :
      Option (Built × ℕ) → Flashblock → ExecutionPayloadBaseV1 → Result Error (Option Built)
  build_payload latest fb b = do
    request ← build_request latest fb b
    outcome ← ok_or (node.build request) build_failed
    ok (payload_of outcome)
