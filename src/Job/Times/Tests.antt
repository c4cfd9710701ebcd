-- ===== src/Job/Times/Tests.antt =====
-- The records of two jobs, the second with no flashblock.
use rblib_world_chain.Prelude.{◌-◌, ◌≡◌, ◌++◌, refl, none, some, [], ◌∷◌}
use rblib_world_chain.Job.Times.{
  Times, default_times, record_since, inter_jobs_interval, inter_block_interval,
  time_to_first_block, idle_tail_time, whole_job,
}
use rblib_world_chain.Job.Times.Cycle.{intervals, job_records}

-- What is left after a job from 10 to 60 with flashblocks at 20, 35 and 50.
abbrev after_first : Times
after_first = record default_times { job_ended = some 60; last_block_at = some 50 }

job_records_example :
    let r = whole_job after_first 100 (120 ∷ 130 ∷ 150 ∷ []) 160 in
    (r.1
      ≡ record_since inter_jobs_interval 100 (some 60)
        ++ (record_since inter_block_interval 120 (some 50)
            ++ (time_to_first_block (120 - 100)
                ∷ (intervals 120 (130 ∷ 150 ∷ []) ++ (idle_tail_time (160 - 150) ∷ [])))))
    × (r.0.first_block_at ≡ none)
    × (r.0.last_block_at ≡ some 150)
    × (r.0.job_ended ≡ some 160)
job_records_example = job_records after_first 100 120 (130 ∷ 150 ∷ []) 160 refl
