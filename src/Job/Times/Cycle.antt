-- ===== src/Job/Times/Cycle.antt =====
-- What a whole job records.
use rblib_world_chain.Prelude.{
  ℕ, ◌-◌, ◌≡◌, ◌∙◌, refl, ap, none, some, List, [], ◌∷◌, ◌++◌, last_or, arith, append_assoc,
}
use rblib_world_chain.Job.Times.{
  Record, Times, intra_block_interval, inter_block_interval, inter_jobs_interval,
  time_to_first_block, idle_tail_time, record_since, on_job_started, on_job_ended,
  on_published_block, on_published_blocks, whole_job,
}

-- The intervals between an instant and those that follow it.
abbrev pub intervals : ℕ → List ℕ → List Record
intervals t [] = []
intervals t (next ∷ ts) = intra_block_interval (next - t) ∷ intervals next ts

-- After the first publication of a job.
blocks_after :
    (times : Times) (first t : ℕ) (ts : List ℕ)
    → times.first_block_at ≡ some first
    → times.last_block_at ≡ some t
    → ((on_published_blocks times ts).1 ≡ intervals t ts)
      × ((on_published_blocks times ts).0.last_block_at ≡ some (last_or t ts))
unfolding on_published_blocks on_published_block
blocks_after times first t [] f l = (refl, l)
blocks_after times first t (next ∷ ts) f l =
    let stored = record times {
      last_block_at = some next;
      previous_block_at = times.last_block_at;
    } in
    ground (arith, blocks_after stored first next ts f refl)

-- Where no first flashblock is noted yet, a job with at least one flashblock records, in this order:
-- the interval since the last job, if there was one; the interval since the last flashblock, if
-- there was one; the time to its first flashblock; the intervals between its flashblocks; and the
-- time from the last of them to its end. No first flashblock is noted afterwards, and the last
-- flashblock and the end of the job are.
pub job_records :
    (times : Times) (started t : ℕ) (ts : List ℕ) (ended : ℕ)
    → times.first_block_at ≡ none
    → let r = whole_job times started (t ∷ ts) ended in
      (r.1
        ≡ record_since inter_jobs_interval started times.job_ended
          ++ (record_since inter_block_interval t times.last_block_at
              ++ (time_to_first_block (t - started)
                  ∷ (intervals t ts ++ (idle_tail_time (ended - last_or t ts) ∷ [])))))
      × (r.0.first_block_at ≡ none)
      × (r.0.last_block_at ≡ some (last_or t ts))
      × (r.0.job_ended ≡ some ended)
unfolding whole_job on_job_started on_job_ended on_published_blocks on_published_block
job_records times started t ts ended h =
    let stored : Times = record times {
      job_started = some started;
      job_ended = none;
      first_block_at = some t;
      last_block_at = some t;
      previous_block_at = times.last_block_at;
    } in
    let rest = blocks_after stored t t ts refl refl in
    rw (h, whole_job, on_published_blocks, on_published_block)
      (rw (rest.0, rest.1)
        (
          ap (λ l. record_since inter_jobs_interval started times.job_ended ++ l)
              (append_assoc
                  (record_since inter_block_interval t times.last_block_at
                    ++ (time_to_first_block (t - started) ∷ []))
                  (intervals t ts) (idle_tail_time (ended - last_or t ts) ∷ [])
                ∙ append_assoc (record_since inter_block_interval t times.last_block_at)
                    (time_to_first_block (t - started) ∷ []) _),
          refl,
          refl,
          refl,
        ))

-- A job without a flashblock that follows a flashblock of an earlier job records, after the interval
-- since the last job, the time from that earlier flashblock to its own end as its idle tail.
pub empty_job_idles :
    (times : Times) (started ended t : ℕ)
    → times.last_block_at ≡ some t
    → (whole_job times started [] ended).1
      ≡ record_since inter_jobs_interval started times.job_ended
        ++ (idle_tail_time (ended - t) ∷ [])
unfolding whole_job on_job_started on_job_ended on_published_blocks
empty_job_idles times started ended t h = rw h refl
