-- ===== src/Job.antt =====
-- src/step/publish_flashblocks.rs: the pipeline step that publishes the checkpoints of a payload job
-- as flashblocks, with the counter and the base that it keeps during the job.
-- A step's input is what the checkpoint and the context give: the outcome of
-- `build_op_built_payload`, the two spans, the payload id and the clock. The executor is the one
-- that the step's `FlashblocksP2p` hands a flashblock to.
pub mod Publishes
pub mod Sent
pub mod Recovery
pub mod Times
pub mod Metrics
mod Tests
use rblib_world_chain.Prelude.{
  u64_mod, ℕ, ◌+◌, ◌%◌, Option, none, some, List, [], ◌∷◌, ◌==◌, if◌then◌else◌, ok, err,
}
use rblib_world_chain.Primitives.Data.{
  Bytes, BlockAccessList, ExecutionPayloadBaseV1, Flashblock, Payload, into_flashblock,
}
use rblib_world_chain.Executor.{Executor, publish_built_payload}

pub record Job : Type 0 where
  pub block_number : ℕ
  pub block_base : Option ExecutionPayloadBaseV1

-- `PublishFlashblock::new`
abbrev pub new : Job
new = record { block_number = 0; block_base = none }

-- What `before_job` reads of its context.
pub record JobContext : Type 0 where
  pub parent_beacon_block_root : Option ℕ
  pub parent_hash : ℕ
  pub coinbase : ℕ
  pub prev_randao : ℕ
  pub number : ℕ
  pub gas_limit : Option ℕ
  pub parent_gas_limit : ℕ
  pub timestamp : ℕ
  pub extra_data : Bytes
  pub base_fee : ℕ

unfoldable pub before_job : Job → JobContext → Job
before_job job ctx = record job {
  block_base = some (record {
    parent_beacon_block_root = elim ctx.parent_beacon_block_root [ none ↦ 0 | some root ↦ root ];
    parent_hash = ctx.parent_hash;
    fee_recipient = ctx.coinbase;
    prev_randao = ctx.prev_randao;
    block_number = ctx.number;
    gas_limit = elim ctx.gas_limit [ none ↦ ctx.parent_gas_limit | some limit ↦ limit ];
    timestamp = ctx.timestamp;
    extra_data = ctx.extra_data;
    base_fee_per_gas = ctx.base_fee;
  });
}

unfoldable pub after_job : Job → Job
after_job job = record { block_number = 0; block_base = none }

-- The block of a built payload and its fees, as far as `step` reads them.
pub record BuiltBlock : Type 0 where
  pub state_root : ℕ
  pub receipts_root : ℕ
  pub logs_bloom : ℕ
  pub gas_used : ℕ
  pub hash : ℕ
  pub withdrawals_root : Option ℕ
  pub block_access_list : Option BlockAccessList
  pub fees : ℕ

-- A call of `step`. The spans are given by their encoded transactions.
pub record Input (Built : Type 0) : Type 0 where
  pub built : Option (Built × BuiltBlock)
  pub payload_id : ℕ
  pub history : List Bytes
  pub history_staging : List Bytes
  pub now : ℕ

-- How a call ends: `ControlFlow::Fail`, the payload as it came, or the payload with a barrier on it
-- and the flashblock that was published.
pub data Flow : Type 0 where
  fail kept : Flow
  barrier : Payload → Flow

unfoldable pub unpublished_payload : {Built : Type 0} → Job → Input Built → List Bytes
unpublished_payload job i = if job.block_number == 0 then i.history else i.history_staging

-- The flashblock that `step` puts together.
unfoldable pub flashblock_of : {Built : Type 0} → Job → Input Built → BuiltBlock → Flashblock
unfolding unpublished_payload
flashblock_of job i block = record {
  flashblock = record {
    payload_id = i.payload_id;
    index = job.block_number;
    diff = record {
      state_root = block.state_root;
      receipts_root = block.receipts_root;
      logs_bloom = block.logs_bloom;
      gas_used = block.gas_used;
      block_hash = block.hash;
      transactions = unpublished_payload job i;
      withdrawals = [];
      withdrawals_root = elim block.withdrawals_root [ none ↦ 0 | some root ↦ root ];
      block_access_list = block.block_access_list;
    };
    metadata = record { fees = block.fees; flashblock_timestamp = some i.now };
    base = job.block_base;
  };
}

module _ {Built Executed : Type 0} where
  -- The counter moves before the publication, and an error of the publication keeps the payload.
  unfoldable pub step :
      Job → Executor Built Executed → Input Built → Job × Executor Built Executed × Flow
  unfolding flashblock_of
  step job e i = elim i.built [
    | none ↦ (job, e, fail)
    | some (built, block) ↦
        let counted = record job { block_number = (job.block_number + 1) % u64_mod } in
        elim (publish_built_payload e (into_flashblock (flashblock_of job i block)) built) [
          | err _ ↦ (counted, e, kept)
          | ok (e', sent) ↦ (counted, e', barrier sent)
        ]
  ]

  -- The steps of a job in a row, with how each ended.
  unfoldable pub steps :
      Job → Executor Built Executed → List (Input Built) → Job × Executor Built Executed × List Flow
  unfolding step
  steps job e [] = (job, e, [])
  steps job e (i ∷ is) =
      let (job', e', flow) = step job e i in
      let (job'', e'', flows) = steps job' e' is in (job'', e'', flow ∷ flows)
