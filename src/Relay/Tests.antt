-- ===== src/Relay/Tests.antt =====
-- Two flashblocks of one payload, which arrive out of order and are built again.
use rblib_world_chain.Prelude.{ℕ, some, List, [], ◌∷◌}
use rblib_world_chain.Primitives.Data.{BlockAccessList, Bytes, Payload, into_flashblock}
use rblib_world_chain.Primitives.Samples.{two_flashblocks}
use rblib_world_chain.Job.{Job, JobContext, before_job, BuiltBlock, Input, flashblock_of}
use rblib_world_chain.Job
use rblib_world_chain.P2p
use rblib_world_chain.Primitives.Collection.{payload_id}
use rblib_world_chain.Reverts
use rblib_world_chain.Block.Builder.Build as Build
use rblib_world_chain.P2p.{P2pMsg, P2pState, default_state}
use rblib_world_chain.Executor.{Executor}
use rblib_world_chain.Executor
use rblib_world_chain.Block.{StateProvider}
use rblib_world_chain.Block.Samples.{small_provider}

abbrev encoded : P2pMsg → Bytes
encoded (P2pMsg.flashblocks_payload_v1 p) = p.payload_id ∷ p.index ∷ []

abbrev provider_of : ℕ → StateProvider ℕ
provider_of db = small_provider

-- An access list with one account, as the blocks carry it.
abbrev some_list : BlockAccessList
some_list =
    record {
      address = 5;
      storage_changes = [];
      storage_reads = [];
      balance_changes = 1 ∷ [];
      nonce_changes = [];
      code_changes = [];
    }
    ∷ []

abbrev relayed_block : BuiltBlock
relayed_block = record {
  state_root = 1;
  receipts_root = 2;
  logs_bloom = 3;
  gas_used = 4;
  hash = 5;
  withdrawals_root = some 6;
  block_access_list = some some_list;
  fees = 0;
}

abbrev job_context : JobContext
job_context = record {
  parent_beacon_block_root = some 8;
  parent_hash = 77;
  coinbase = 5;
  prev_randao = 6;
  number = 10;
  gas_limit = some 30000000;
  parent_gas_limit = 30000000;
  timestamp = 102;
  extra_data = [];
  base_fee = 1;
}

-- A step of payload 8 at a time of its own.
abbrev step_at : ℕ → List Bytes → List Bytes → Input ℕ
step_at time history staging = record {
  built = some (8, relayed_block);
  payload_id = 8;
  history = history;
  history_staging = staging;
  now = time;
}

abbrev opening : Input ℕ
opening = step_at 50 ((7 ∷ 0 ∷ []) ∷ []) ((7 ∷ 0 ∷ []) ∷ [])

abbrev later : Input ℕ
later = step_at 60 ((7 ∷ 0 ∷ []) ∷ (7 ∷ 1 ∷ []) ∷ []) ((7 ∷ 1 ∷ []) ∷ [])

-- The publisher's executor, at payload 7 of timestamp 100.
abbrev busy : Executor ℕ ℕ
busy = record Executor.new { flashblocks = two_flashblocks }

abbrev started_job : Job
unfolding before_job
started_job = before_job Job.new job_context

abbrev counted_job : Job
counted_job = record started_job { block_number = 1 }

abbrev first_piece : Payload
unfolding flashblock_of started_job
first_piece = into_flashblock (flashblock_of started_job opening relayed_block)

abbrev second_piece : Payload
unfolding flashblock_of started_job
second_piece = into_flashblock (flashblock_of counted_job later relayed_block)

abbrev arrived : List Payload
arrived = second_piece ∷ second_piece ∷ first_piece ∷ []

abbrev waiting : P2pState
waiting = record default_state { payload_id = 8 }
