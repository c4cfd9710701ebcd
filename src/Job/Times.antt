-- ===== src/Job/Times.antt =====
-- `Times` of src/step/publish_flashblocks.rs: the instants that the publishing step keeps, and the
-- durations that it records as metrics. An instant is a number; the clock is an argument.
pub mod Cycle
mod Tests
use rblib_world_chain.Prelude.{
  ℕ, ◌-◌, Bool, true, false, Option, none, some, List, [], ◌∷◌, ◌++◌, if◌then◌else◌,
}

-- A duration, by the histogram that it is recorded in.
pub data Record : Type 0 where
  intra_block_interval inter_block_interval inter_jobs_interval : ℕ → Record
  time_to_first_block idle_tail_time : ℕ → Record

pub record Times : Type 0 where
  pub job_started : Option ℕ
  pub job_ended : Option ℕ
  pub first_block_at : Option ℕ
  pub previous_block_at : Option ℕ
  pub last_block_at : Option ℕ

abbrev pub default_times : Times
default_times = record {
  job_started = none;
  job_ended = none;
  first_block_at = none;
  previous_block_at = none;
  last_block_at = none;
}

-- `now.duration_since(then)`, which stops at 0, recorded if there is an earlier instant.
abbrev pub record_since : (ℕ → Record) → ℕ → Option ℕ → List Record
record_since histogram now none = []
record_since histogram now (some earlier) = histogram (now - earlier) ∷ []

unfoldable pub on_job_started : Times → ℕ → Times × List Record
on_job_started times now = (
  record times { job_started = some now; job_ended = none },
  record_since inter_jobs_interval now times.job_ended,
)

unfoldable pub on_job_ended : Times → ℕ → Times × List Record
on_job_ended times now = (
  record times {
    job_ended = some now;
    job_started = none;
    first_block_at = none;
    previous_block_at = none;
  },
  record_since idle_tail_time now times.last_block_at,
)

unfoldable pub on_published_block : Times → ℕ → Times × List Record
on_published_block times now =
    let stored = record times {
      last_block_at = some now;
      previous_block_at = times.last_block_at;
    } in
    elim times.first_block_at [
      | none ↦ (
        record stored { first_block_at = some now },
        record_since inter_block_interval now times.last_block_at
            ++ record_since time_to_first_block now times.job_started,
      )
      | some _ ↦ (stored, record_since intra_block_interval now times.last_block_at)
    ]

-- The publications of a job in a row.
unfoldable pub on_published_blocks : Times → List ℕ → Times × List Record
on_published_blocks times [] = (times, [])
on_published_blocks times (t ∷ ts) =
    let first = on_published_block times t in
    let rest = on_published_blocks first.0 ts in (rest.0, first.1 ++ rest.1)

-- A whole job: its start, its publications and its end.
unfoldable pub whole_job : Times → ℕ → List ℕ → ℕ → Times × List Record
whole_job times started ts ended =
    let begun = on_job_started times started in
    let published = on_published_blocks begun.0 ts in
    let done = on_job_ended published.0 ended in (done.0, begun.1 ++ (published.1 ++ done.1))
