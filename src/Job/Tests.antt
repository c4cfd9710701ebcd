-- ===== src/Job/Tests.antt =====
-- Runs of a payload job on concrete inputs.
use rblib_world_chain.Prelude.{ℕ, ◌≡◌, ◌++◌, refl, arith, none, some, List, [], ◌∷◌, err, All}
use rblib_world_chain.Primitives.Data.{Bytes}
use rblib_world_chain.Primitives.Samples.{base_at, two_flashblocks}
use rblib_world_chain.Primitives.Collection.{
  push, is_new_payload, starts_payload, base, payload_id, first, stale_timestamp,
}
use rblib_world_chain.Executor.{Executor, new}
use rblib_world_chain.Job.{JobContext, Job, before_job, BuiltBlock, Input, flashblock_of, steps}
use rblib_world_chain.Job
use rblib_world_chain.Job.Publishes.{AllPublished, staged, job_publishes}
use rblib_world_chain.Job.Recovery.{IsUnpublished, job_never_recovers}

abbrev sample_block : BuiltBlock
sample_block = record {
  state_root = 1;
  receipts_root = 2;
  logs_bloom = 3;
  gas_used = 21000;
  hash = 4;
  withdrawals_root = none;
  block_access_list = none;
  fees = 9;
}

abbrev job_at : ℕ → JobContext
job_at timestamp = record {
  parent_beacon_block_root = none;
  parent_hash = 77;
  coinbase = 1;
  prev_randao = 2;
  number = 5;
  gas_limit = none;
  parent_gas_limit = 30000000;
  timestamp = timestamp;
  extra_data = [];
  base_fee = 6;
}

-- A step of payload 8, with one transaction staged and all of them in the history.
abbrev input_at : List Bytes → Bytes → Input ℕ
input_at before staged_tx = record {
  built = some (8, sample_block);
  payload_id = 8;
  history = before ++ (staged_tx ∷ []);
  history_staging = staged_tx ∷ [];
  now = 50;
}

abbrev inputs : List (Input ℕ)
inputs = input_at ((1 ∷ []) ∷ []) (2 ∷ []) ∷ input_at [] (3 ∷ []) ∷ []

abbrev opening_input : Input ℕ
opening_input = input_at [] (1 ∷ [])

-- An executor at payload 7, of timestamp 100.
abbrev busy : Executor ℕ ℕ
busy = record new { flashblocks = two_flashblocks }

job_publishes_example :
    AllPublished 3
      ((1 ∷ []) ∷ staged inputs)
      (steps (before_job Job.new (job_at 102)) busy (opening_input ∷ inputs))
unfolding payload_id base first
job_publishes_example =
    job_publishes (job_at 102) busy opening_input inputs (base_at 100)
      ((base_at 100, refl), (refl, refl, (refl, refl, tt))) (λ h. cc) refl (omega arith)
      (
        (((8, sample_block), refl), refl),
        ((((8, sample_block), refl), refl), ((((8, sample_block), refl), refl), tt)),
      )
      (omega arith)

-- A job with an older timestamp is refused.
refused_opening :
    push busy.flashblocks
      (flashblock_of (before_job Job.new (job_at 90)) opening_input sample_block)
    ≡ err stale_timestamp
unfolding push is_new_payload starts_payload base payload_id first before_job flashblock_of
refused_opening = refl

job_never_recovers_example :
    ((steps (before_job Job.new (job_at 90)) busy (opening_input ∷ inputs)).1 ≡ busy)
    × All IsUnpublished (steps (before_job Job.new (job_at 90)) busy (opening_input ∷ inputs)).2
unfolding payload_id first
job_never_recovers_example =
    job_never_recovers (job_at 90) busy opening_input inputs 8 sample_block stale_timestamp
      (λ h. cc) refl refused_opening (refl, (refl, tt)) (omega arith)
