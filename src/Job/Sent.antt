-- ===== src/Job/Sent.antt =====
-- What the steps of a job hand to the network is what the executor's collection holds.
use rblib_world_chain.Prelude.{
  ℕ, ◌+◌, ◌<◌, ◌≡◌, ◌≢◌, refl, sym, ap, ◌∙◌, All, List, [], ◌∷◌, ◌++◌, length, length-append, map,
  append_assoc, append-nil, arith, ok, inl, inr, false, true, u64_mod,
}
use mathlib.Core.List.{map-append}
use rblib_world_chain.Primitives.Data.{ExecutionPayloadBaseV1, Payload, into_flashblock}
use rblib_world_chain.Primitives.Collection.{payload_id, base, push}
use rblib_world_chain.Primitives.Collection.Invariant.{IsValid}
use rblib_world_chain.Primitives.Collection.Push.{push_iff}
use rblib_world_chain.Executor.{Executor}
use rblib_world_chain.Job.{
  Job, JobContext, new, before_job, Input, Flow, fail, kept, barrier, flashblock_of, steps,
}
use rblib_world_chain.Job.Publishes.{
  Builds, Running, Running-published, step_below, published_job, published_executor,
}

-- The flashblocks of the steps that end with a barrier.
abbrev pub sent : List Flow → List Payload
sent [] = []
sent (fail ∷ flows) = sent flows
sent (kept ∷ flows) = sent flows
sent (barrier p ∷ flows) = p ∷ sent flows

module _ {Built Executed : Type 0} where
  -- Steps that go on with the payload of the collection send what they add to it.
  steps_send :
      (id : ℕ) (job : Job) (e : Executor Built Executed) (is : List (Input Built))
      → Running id job e
      → All (Builds id) is
      → length e.flashblocks + length is < u64_mod
      → (map into_flashblock (steps job e is).1.flashblocks
          ≡ map into_flashblock e.flashblocks ++ sent (steps job e is).2)
        × (payload_id (steps job e is).1.flashblocks ≡ ok id)
  unfolding steps published_executor
  steps_send id job e [] run all_build bound = (sym (append-nil _), run.1)
  steps_send id job e (i ∷ is) run all_build bound =
      let ((built, block), h) = all_build.0.0 in
      let fb = flashblock_of job i block in
      let fs = e.flashblocks ++ (fb ∷ []) in
      let pushed : push e.flashblocks fb ≡ ok (fs, false) =
        (push_iff e.flashblocks fs fb false run.0).1
          (inl ((run.1 ∙ ap ok (sym all_build.0.1), run.2), refl, refl)) in
      let longer : length fs ≡ length e.flashblocks + 1 = length-append e.flashblocks (fb ∷ []) in
      let rest =
        steps_send id (published_job job) (published_executor e job built fs) is
          (Running-published id job e i built block fs false all_build.0.1 run.0 pushed) all_build.1
          (omega (arith, longer, bound)) in
      rw (step_below job e i built block fs false (omega (arith, run.2, bound)) h pushed) (
        rest.0
            ∙ ap
                (λ ps.
                  ps ++ sent (steps (published_job job) (published_executor e job built fs) is).2)
                (map-append into_flashblock e.flashblocks (fb ∷ []))
            ∙ append_assoc (map into_flashblock e.flashblocks) (fb.flashblock ∷ []) _,
        rest.1,
      )

  -- A job that opens a payload sends the flashblocks of the collection that it leaves.
  pub job_sends :
      (ctx : JobContext) (e : Executor Built Executed) (i : Input Built) (is : List (Input Built))
      (cur : ExecutionPayloadBaseV1)
      → IsValid e.flashblocks
      → payload_id e.flashblocks ≢ ok i.payload_id
      → base e.flashblocks ≡ ok cur
      → cur.timestamp < ctx.timestamp
      → All (Builds i.payload_id) (i ∷ is)
      → length (i ∷ is) < u64_mod
      → let r = steps (before_job new ctx) e (i ∷ is) in
        (sent r.2 ≡ map into_flashblock r.1.flashblocks)
        × (payload_id r.1.flashblocks ≡ ok i.payload_id)
  unfolding steps before_job flashblock_of published_executor
  job_sends ctx e i is cur v other current later all_build bound =
      let ((built, block), h) = all_build.0.0 in
      let job = before_job new ctx in
      let fb = flashblock_of job i block in
      let pushed : push e.flashblocks fb ≡ ok (fb ∷ [], true) =
        (push_iff e.flashblocks (fb ∷ []) fb true v).1
          (inr ((other, refl, (_, cur, refl, current, later)), refl, refl)) in
      let rest =
        steps_send i.payload_id (published_job job) (published_executor e job built (fb ∷ [])) is
          (Running-published i.payload_id job e i built block (fb ∷ []) true refl v pushed)
          all_build.1 (omega (arith, bound)) in
      rw (step_below job e i built block (fb ∷ []) true (omega arith) h pushed) (sym rest.0, rest.1)
