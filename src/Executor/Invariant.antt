-- ===== src/Executor/Invariant.antt =====
-- The executor's collection and its latest payload belong together, after every call.
use rblib_world_chain.Prelude.{
  ℕ, ◌+◌, ◌≡◌, inl, inr, ap, ◌∙◌, none, some, Option, Bool, arith, length, ok, Result-cases,
  Option-cases,
}
use rblib_world_chain.Primitives.Data.{Payload, Flashblock, ExecutionPayloadBaseV1}
use rblib_world_chain.Primitives.Collection.{Flashblocks, payload_id, push}
use rblib_world_chain.Primitives.Collection.Invariant.{IsValid, default_flashblocks-IsValid}
use rblib_world_chain.Primitives.Collection.Push.{push-IsValid, push_current}
use rblib_world_chain.Executor.Request.{
  Node, BuildRequest, Outcome, build_request, build_payload, payload_of,
}
use rblib_world_chain.Executor.{
  Executor, new, publish_built_payload, broadcast_payload, store, build_and_store, process_unseen,
  already_processed, process_flashblock,
}

-- The latest payload, if there is one, is of the current payload id and of the last flashblock.
abbrev pub Current : {Built : Type 0} → (Built → ℕ) → Flashblocks → Option (Built × ℕ) → Type 0
Current built_id fs none = Unit {0}
Current built_id fs (some (built, index)) =
    (payload_id fs ≡ ok (built_id built)) × (index + 1 ≡ length fs)

module _ {Built Executed : Type 0} (built_id : Built → ℕ) where
  abbrev pub IsCoherent : Executor Built Executed → Type 0
  IsCoherent e = IsValid e.flashblocks × Current built_id e.flashblocks e.latest_payload

  -- what `push` and the new latest payload leave is coherent again
  pushed-IsCoherent :
      (e e' : Executor Built Executed) (fs : Flashblocks) (fb : Flashblock) (built : Built)
      (fresh : Bool)
      → IsValid e.flashblocks
      → built_id built ≡ fb.payload_id
      → push e.flashblocks fb ≡ ok (fs, fresh)
      → e'.flashblocks ≡ fs
      → e'.latest_payload ≡ some (built, fb.index)
      → IsCoherent e'
  pushed-IsCoherent e e' fs fb built fresh v id h ef el =
      let current = push_current e.flashblocks fs fb fresh h in
      rw (ef, el) (push-IsValid e.flashblocks fs fb fresh v h, (rw id current.0, current.1))

  -- A successful publication of a built payload of the flashblock's id keeps a coherent executor
  -- coherent, and hands on the flashblock as it is.
  pub publish_built_payload-IsCoherent :
      (e e' : Executor Built Executed) (payload out : Payload) (built : Built)
      → IsCoherent e
      → built_id built ≡ payload.payload_id
      → publish_built_payload e payload built ≡ ok (e', out)
      → IsCoherent e' × (out ≡ payload)
  unfolding publish_built_payload
  publish_built_payload-IsCoherent e e' payload out built v id h =
      let fb : Flashblock = record { flashblock = payload } in
      elim (Result-cases (push e.flashblocks fb)) [
        | inl ((fs, fresh), pushed) ↦ (
          pushed-IsCoherent e e' fs fb built fresh v.0 id pushed (ground arith) (ground arith),
          ground arith,
        )
        | inr (x, refused) ↦ absurd (ground arith)
      ]

pub new-IsCoherent :
    (Built Executed : Type 0) (built_id : Built → ℕ) → IsCoherent {Executed = Executed} built_id new
new-IsCoherent Built Executed built_id = (default_flashblocks-IsValid, tt)

module _ {Tx Built Executed Header Env Db : Type 0}
    (node : Node Tx Built Executed Header Env Db) where
  -- What the builder builds carries the requested payload id.
  abbrev pub IsFaithful : Type 0
  IsFaithful =
      (r : BuildRequest Tx Built Header Env Db) (o : Outcome Built) (built : Built)
      → node.build r ≡ some o
      → payload_of node o ≡ some built
      → node.built_id built ≡ r.attributes.payload_attributes.id

  build_request-id :
      (latest : Option (Built × ℕ)) (fb : Flashblock) (b : ExecutionPayloadBaseV1)
      (r : BuildRequest Tx Built Header Env Db)
      → build_request node latest fb b ≡ ok r
      → r.attributes.payload_attributes.id ≡ fb.payload_id
  unfolding build_request
  build_request-id latest fb b r h = ground arith

  build_payload-id :
      (latest : Option (Built × ℕ)) (fb : Flashblock) (b : ExecutionPayloadBaseV1) (built : Built)
      → IsFaithful
      → build_payload node latest fb b ≡ ok (some built)
      → node.built_id built ≡ fb.payload_id
  unfolding build_payload
  build_payload-id latest fb b built faithful h =
      elim (Result-cases (build_request node latest fb b)) [
        | inl (r, e) ↦ elim (Option-cases (node.build r)) [
          | inl e' ↦ absurd (ground arith)
          | inr (o, e') ↦ faithful r o built e' (ground arith) ∙ build_request-id latest fb b r e
        ]
        | inr (x, e) ↦ absurd (ground arith)
      ]

  store-IsCoherent :
      (e : Executor Built Executed) (fb : Flashblock) (built : Built)
      → IsCoherent node.built_id e
      → node.built_id built ≡ fb.payload_id
      → IsCoherent node.built_id (store node e fb built).0
  unfolding store broadcast_payload
  store-IsCoherent e fb built v id = elim (Result-cases (push e.flashblocks fb)) [
    | inl ((fs, fresh), pushed) ↦
        pushed-IsCoherent node.built_id e (store node e fb built).0 fs fb built fresh v.0 id pushed
          (ground arith) (ground arith)
    | inr (x, refused) ↦ rw (refused, store) v
  ]

  build_and_store-IsCoherent :
      (e : Executor Built Executed) (fb : Flashblock) (b : ExecutionPayloadBaseV1)
      → IsFaithful
      → IsCoherent node.built_id e
      → IsCoherent node.built_id (build_and_store node e fb b).0
  unfolding build_and_store
  build_and_store-IsCoherent e fb b faithful v =
      elim (Result-cases (build_payload node e.latest_payload fb b)) [
        | inl (o, built) ↦ elim (Option-cases o) [
          | inl no_payload ↦ rw (built, no_payload, build_and_store) v
          | inr (p, some_payload) ↦
              rw (built, some_payload, build_and_store)
                (store-IsCoherent e fb p v
                  (build_payload-id e.latest_payload fb b p faithful (built ∙ ap ok some_payload)))
        ]
        | inr (x, failed) ↦ rw (failed, build_and_store) v
      ]

  process_unseen-IsCoherent :
      (e : Executor Built Executed) (fb : Flashblock)
      → IsFaithful
      → IsCoherent node.built_id e
      → IsCoherent node.built_id (process_unseen node e fb).0
  unfolding process_unseen
  process_unseen-IsCoherent e fb faithful v =
      let forgotten = record e { latest_payload = none } in
      grind (
        arith,
        λ (b : ExecutionPayloadBaseV1). build_and_store-IsCoherent e fb b faithful v,
        λ (b : ExecutionPayloadBaseV1).
            build_and_store-IsCoherent forgotten fb b faithful (v.0, tt),
      )

  -- If the builder builds what it is asked for, processing a flashblock, whether it succeeds or
  -- fails, keeps the collection valid and the latest payload, if there is one, of the current
  -- payload id and of the last flashblock.
  pub process_flashblock-IsCoherent :
      (e : Executor Built Executed) (payload : Payload)
      → IsFaithful
      → IsCoherent node.built_id e
      → IsCoherent node.built_id (process_flashblock node e payload).0
  unfolding process_flashblock
  process_flashblock-IsCoherent e payload faithful v =
      let fb : Flashblock = record { flashblock = payload } in
      elim (Option-cases (already_processed node e fb)) [
        | inl unseen ↦ rw (unseen, process_flashblock) (process_unseen-IsCoherent e fb faithful v)
        | inr (built, seen) ↦ rw (seen, process_flashblock) v
      ]
