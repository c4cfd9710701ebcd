-- ===== src/Job/Publishes.antt =====
-- What the steps of a job publish when every block builds.
use rblib_world_chain.Prelude.{
  ℕ, ◌%◌, ◌∙◌, Bool, ◌+◌, ◌≤◌, ◌<◌, ◌≡◌, ◌≢◌, refl, sym, ap, some, List, [], ◌∷◌, ◌++◌, length,
  arith, All, ok, inl, inr, false, true, length-append, append_assoc, append-nil, u64_mod,
}
use rblib_world_chain.Primitives.Data.{Bytes, ExecutionPayloadBaseV1, Flashblock, Payload}
use rblib_world_chain.Primitives.Collection.{Flashblocks, payload_id, base, push}
use rblib_world_chain.Primitives.Collection.Invariant.{IsValid}
use rblib_world_chain.Primitives.Collection.Push.{push_iff, push-IsValid, push_current}
use rblib_world_chain.Primitives.Reduce.Summary.{all_transactions}
use rblib_world_chain.Executor.{Executor}
use rblib_world_chain.Executor.Publication.{publish_built_payload_lem}
use rblib_world_chain.Job.{
  Job, JobContext, new, before_job, BuiltBlock, Input, Flow, barrier, flashblock_of, step, steps,
}

abbrev pub Builds : {Built : Type 0} → ℕ → Input Built → Type 0
Builds {Built = Built} id i =
    ((built : Built × BuiltBlock) × (i.built ≡ some built)) × (i.payload_id ≡ id)

abbrev pub IsBarrier : Flow → Type 0
IsBarrier flow = (p : Payload) × (flow ≡ barrier p)

-- The transactions of the checkpoints since the last barrier, of a sequence of steps.
abbrev pub staged : {Built : Type 0} → List (Input Built) → List Bytes
staged [] = []
staged (i ∷ is) = i.history_staging ++ staged is

IsValid-length : (fs : Flashblocks) → IsValid fs → 1 ≤ length fs
IsValid-length [] v = absurd v
IsValid-length (x ∷ xs) v = omega arith

all_transactions-append :
    (xs ys : List Flashblock)
    → all_transactions (xs ++ ys) ≡ all_transactions xs ++ all_transactions ys
all_transactions-append [] ys = refl
all_transactions-append (x ∷ xs) ys =
    ap (λ t. x.diff.transactions ++ t) (all_transactions-append xs ys)
    ∙ sym (append_assoc x.diff.transactions (all_transactions xs) (all_transactions ys))

unfoldable pub published_job : Job → Job
published_job job = record job { block_number = job.block_number + 1 }

module _ {Built Executed : Type 0} where
  -- The job counts the flashblocks of the executor's collection, which is of payload `id`.
  abbrev pub Running : ℕ → Job → Executor Built Executed → Type 0
  Running id job e =
      IsValid e.flashblocks
      × (payload_id e.flashblocks ≡ ok id)
      × (job.block_number ≡ length e.flashblocks)

  -- A step whose flashblock the collection accepts publishes it and counts on.
  step_publishes :
      (job : Job) (e : Executor Built Executed) (i : Input Built) (built : Built)
      (block : BuiltBlock) (fs : Flashblocks) (fresh : Bool)
      → i.built ≡ some (built, block)
      → push e.flashblocks (flashblock_of job i block) ≡ ok (fs, fresh)
      → step job e i ≡ (
        record job { block_number = (job.block_number + 1) % u64_mod },
        record e { flashblocks = fs; latest_payload = some (built, job.block_number) },
        barrier (flashblock_of job i block).flashblock,
      )
  unfolding step flashblock_of
  step_publishes job e i built block fs fresh h pushed =
      let published =
        publish_built_payload_lem e (flashblock_of job i block).flashblock built fs fresh pushed in
      ground (arith, published)

  -- What a sequence of steps leaves: every step has published, the collection is valid, it holds one
  -- more flashblock for each step, and `txs` are all its transactions.
  abbrev pub AllPublished : ℕ → List Bytes → Job × Executor Built Executed × List Flow → Type 0
  AllPublished count txs r =
      All IsBarrier r.2
      × IsValid r.1.flashblocks
      × (length r.1.flashblocks ≡ count)
      × (all_transactions r.1.flashblocks ≡ txs)

  unfoldable pub published_executor :
      Executor Built Executed → Job → Built → Flashblocks → Executor Built Executed
  published_executor e job built fs = record e {
    flashblocks = fs;
    latest_payload = some (built, job.block_number);
  }

  pub step_below :
      (job : Job) (e : Executor Built Executed) (i : Input Built) (built : Built)
      (block : BuiltBlock) (fs : Flashblocks) (fresh : Bool)
      → job.block_number + 1 < u64_mod
      → i.built ≡ some (built, block)
      → push e.flashblocks (flashblock_of job i block) ≡ ok (fs, fresh)
      → step job e i ≡ (
        published_job job,
        published_executor e job built fs,
        barrier (flashblock_of job i block).flashblock,
      )
  unfolding published_job published_executor
  step_below job e i built block fs fresh bound h pushed =
      step_publishes job e i built block fs fresh h pushed
      ∙ ap
          (λ n. (
            record job { block_number = n },
            published_executor e job built fs,
            barrier (flashblock_of job i block).flashblock,
          ))
          (omega (arith, bound))

  pub Running-published :
      (id : ℕ) (job : Job) (e : Executor Built Executed) (i : Input Built) (built : Built)
      (block : BuiltBlock) (fs : Flashblocks) (fresh : Bool)
      → i.payload_id ≡ id
      → IsValid e.flashblocks
      → push e.flashblocks (flashblock_of job i block) ≡ ok (fs, fresh)
      → Running id (published_job job) (published_executor e job built fs)
  unfolding published_job published_executor flashblock_of
  Running-published id job e i built block fs fresh same v pushed =
      let current = push_current e.flashblocks fs (flashblock_of job i block) fresh pushed in
      (
        push-IsValid e.flashblocks fs (flashblock_of job i block) fresh v pushed,
        current.0 ∙ ap ok same,
        current.1,
      )

  staged_transactions :
      (job : Job) (e : Executor Built Executed) (i : Input Built) (block : BuiltBlock)
      → IsValid e.flashblocks
      → job.block_number ≡ length e.flashblocks
      → (flashblock_of job i block).diff.transactions ≡ i.history_staging
  unfolding flashblock_of
  staged_transactions job e i block v h = ground (arith, IsValid-length e.flashblocks v)

  steps_publish :
      (id : ℕ) (job : Job) (e : Executor Built Executed) (is : List (Input Built))
      → Running id job e
      → All (Builds id) is
      → length e.flashblocks + length is < u64_mod
      → AllPublished
          (length e.flashblocks + length is)
          (all_transactions e.flashblocks ++ staged is)
          (steps job e is)
  unfolding steps flashblock_of published_executor
  steps_publish id job e [] run all_build bound =
      (tt, run.0, omega arith, sym (append-nil (all_transactions e.flashblocks)))
  steps_publish id job e (i ∷ is) run all_build bound =
      let ((built, block), h) = all_build.0.0 in
      let fb = flashblock_of job i block in
      let fs = e.flashblocks ++ (fb ∷ []) in
      let pushed : push e.flashblocks fb ≡ ok (fs, false) =
        (push_iff e.flashblocks fs fb false run.0).1
          (inl ((run.1 ∙ ap ok (sym all_build.0.1), run.2), refl, refl)) in
      let longer : length fs ≡ length e.flashblocks + 1 = length-append e.flashblocks (fb ∷ []) in
      let rest =
        steps_publish id (published_job job) (published_executor e job built fs) is
          (Running-published id job e i built block fs false all_build.0.1 run.0 pushed) all_build.1
          (omega (arith, longer, bound)) in
      rw (step_below job e i built block fs false (omega (arith, run.2, bound)) h pushed) (
        ((fb.flashblock, refl), rest.0),
        rest.1,
        omega (arith, rest.2, longer),
        rest.3
            ∙ ap (λ t. t ++ staged is)
                (all_transactions-append e.flashblocks (fb ∷ [])
                  ∙ ap (λ t. all_transactions e.flashblocks ++ t)
                      (append-nil fb.diff.transactions
                        ∙ staged_transactions job e i block run.0 run.2))
            ∙ append_assoc (all_transactions e.flashblocks) i.history_staging (staged is),
      )

  -- A job that opens a later payload than that of a valid collection, and whose blocks all build
  -- with the job's payload id, publishes at every step, as long as it has fewer than 2^64 steps: the
  -- executor's collection is left valid with one flashblock for each step, and its transactions are
  -- the history at the first step followed by what was staged at each later one.
  pub job_publishes :
      (ctx : JobContext) (e : Executor Built Executed) (i : Input Built) (is : List (Input Built))
      (cur : ExecutionPayloadBaseV1)
      → IsValid e.flashblocks
      → payload_id e.flashblocks ≢ ok i.payload_id
      → base e.flashblocks ≡ ok cur
      → cur.timestamp < ctx.timestamp
      → All (Builds i.payload_id) (i ∷ is)
      → length (i ∷ is) < u64_mod
      → AllPublished
          (length (i ∷ is))
          (i.history ++ staged is)
          (steps (before_job new ctx) e (i ∷ is))
  unfolding steps before_job flashblock_of published_executor
  job_publishes ctx e i is cur v other current later all_build bound =
      let ((built, block), h) = all_build.0.0 in
      let job = before_job new ctx in
      let fb = flashblock_of job i block in
      let pushed : push e.flashblocks fb ≡ ok (fb ∷ [], true) =
        (push_iff e.flashblocks (fb ∷ []) fb true v).1
          (inr ((other, refl, (_, cur, refl, current, later)), refl, refl)) in
      let rest =
        steps_publish i.payload_id (published_job job) (published_executor e job built (fb ∷ [])) is
          (Running-published i.payload_id job e i built block (fb ∷ []) true refl v pushed)
          all_build.1 (omega (arith, bound)) in
      rw (step_below job e i built block (fb ∷ []) true (omega arith) h pushed) (
        ((fb.flashblock, refl), rest.0),
        rest.1,
        omega (arith, rest.2),
        rest.3 ∙ ap (λ t. t ++ staged is) (append-nil i.history),
      )
