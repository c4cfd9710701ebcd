-- ===== src/Job/Recovery.antt =====
-- What is left of a job whose opening flashblock is refused.
use rblib_world_chain.Prelude.{
  ℕ, ◌%◌, ◌∙◌, ap, ◌+◌, ◌≤◌, ◌<◌, ◌≡◌, ◌≢◌, refl, none, some, List, [], ◌∷◌, length, arith, All, ok,
  err, inl, inr, u64_mod, Option-cases,
}
use rblib_world_chain.Primitives.Data.{Payload}
use rblib_world_chain.Primitives.Collection.{Error, payload_id, push}
use rblib_world_chain.Primitives.Collection.Push.{push_misplaced}
use rblib_world_chain.Executor.{Executor}
use rblib_world_chain.Executor.Publication.{publish_built_payload_fails}
use rblib_world_chain.Job.{
  Job, JobContext, new, before_job, BuiltBlock, Input, Flow, barrier, flashblock_of, step, steps,
  JobContext,
}

abbrev pub IsUnpublished : Flow → Type 0
IsUnpublished flow = (p : Payload) → flow ≢ barrier p

module _ {Built Executed : Type 0} where
  -- The counter has moved, and the executor is still at another payload.
  abbrev Missed : ℕ → Job → Executor Built Executed → Type 0
  Missed id job e = (1 ≤ job.block_number) × (payload_id e.flashblocks ≢ ok id)

  step_refused :
      (job : Job) (e : Executor Built Executed) (i : Input Built) (built : Built)
      (block : BuiltBlock) (x : Error)
      → i.built ≡ some (built, block)
      → push e.flashblocks (flashblock_of job i block) ≡ err x
      → step job e i
        ≡ (record job { block_number = (job.block_number + 1) % u64_mod }, e, Flow.kept)
  unfolding step
  step_refused job e i built block x h refused =
      let failed =
        publish_built_payload_fails e (flashblock_of job i block).flashblock built x refused in
      ground (arith, failed)

  step_fails :
      (job : Job) (e : Executor Built Executed) (i : Input Built)
      → i.built ≡ none
      → step job e i ≡ (job, e, Flow.fail)
  unfolding step
  step_fails job e i h = ground (arith, h)

  steps-Missed :
      (id : ℕ) (job : Job) (e : Executor Built Executed) (is : List (Input Built))
      → Missed id job e
      → All (λ i. i.payload_id ≡ id) is
      → job.block_number + length is < u64_mod
      → ((steps job e is).1 ≡ e) × All IsUnpublished (steps job e is).2
  unfolding steps flashblock_of
  steps-Missed id job e [] missed same bound = (refl, tt)
  steps-Missed id job e (i ∷ is) missed same bound = elim (Option-cases i.built) [
    | inl none_built ↦
        let rest = steps-Missed id job e is missed same.1 (omega (arith, bound)) in
        rw (step_fails job e i none_built) (rest.0, (λ p h. cc, rest.1))
    | inr ((built, block), h) ↦
        let fb = flashblock_of job i block in
        let (x, refused) =
          push_misplaced e.flashblocks fb (λ s. missed.1 (s ∙ ap ok same.0))
            (λ z. omega (arith, missed.0, z)) in
        let job' : Job = record job { block_number = (job.block_number + 1) % u64_mod } in
        let rest =
          steps-Missed id job' e is (omega (arith, bound), missed.1) same.1
            (omega (arith, bound)) in
        rw (step_refused job e i built block x h refused) (rest.0, (λ p h. cc, rest.1))
  ]

  -- A job whose opening flashblock is of another payload than the executor's collection, and is
  -- refused by it, publishes nothing at any later step of that payload either, whatever the blocks
  -- are, as long as it has fewer than 2^64 steps: the executor is left as it was and no step ends
  -- with a barrier.
  pub job_never_recovers :
      (ctx : JobContext) (e : Executor Built Executed) (i : Input Built) (is : List (Input Built))
      (built : Built) (block : BuiltBlock) (x : Error)
      → payload_id e.flashblocks ≢ ok i.payload_id
      → i.built ≡ some (built, block)
      → push e.flashblocks (flashblock_of (before_job new ctx) i block) ≡ err x
      → All (λ j. j.payload_id ≡ i.payload_id) is
      → length (i ∷ is) < u64_mod
      → ((steps (before_job new ctx) e (i ∷ is)).1 ≡ e)
        × All IsUnpublished (steps (before_job new ctx) e (i ∷ is)).2
  unfolding steps before_job
  job_never_recovers ctx e i is built block x other h refused same bound =
      let job' : Job = record (before_job new ctx) { block_number = 1 } in
      let rest =
        steps-Missed i.payload_id job' e is (omega arith, other) same (omega (arith, bound)) in
      rw (step_refused (before_job new ctx) e i built block x h refused)
        (rest.0, (λ p h. cc, rest.1))
