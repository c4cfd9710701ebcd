-- ===== src/Executor/Failure.antt =====
-- What a failing call of `process_flashblock` leaves, and what a flashblock of this node meets when it
-- comes back from the stream.
use rblib_world_chain.Prelude.{
  ℕ, ◌≤◌, ◌≡◌, ◌⊎◌, inl, inr, sym, ap, ◌∙◌, none, some, arith, ok, err, Result, Result-cases,
  Option-cases,
}
use mathlib.Core.Path.{subst}
use native.Mathlib.Decide.{ℕ_discrete}
use rblib_world_chain.Primitives.Data.{Payload, Flashblock, ExecutionPayloadBaseV1}
use rblib_world_chain.Primitives.Collection.{push}
use rblib_world_chain.Primitives.Collection.Push.{Opens, Opens-is_new_payload}
use rblib_world_chain.Executor.Request.{Node, Error, BuildRequest, build_request, build_payload}
use rblib_world_chain.Executor.{
  Executor, publish_built_payload, store, build_and_store, process_unseen, already_processed,
  process_flashblock,
}
use rblib_world_chain.Executor.Invariant.{IsCoherent, Current}

module _ {Tx Built Executed Header Env Db : Type 0}
    (node : Node Tx Built Executed Header Env Db) where
  published_latest :
      (e e' : Executor Built Executed) (payload out : Payload) (built : Built)
      → publish_built_payload e payload built ≡ ok (e', out)
      → e'.latest_payload ≡ some (built, payload.index)
  unfolding publish_built_payload
  published_latest e e' payload out built h =
      elim (Result-cases (push e.flashblocks (record { flashblock = payload }))) [
        | inl (r, pushed) ↦ ground arith
        | inr (x, refused) ↦ absurd (ground arith)
      ]

  pub seen_latest :
      (e : Executor Built Executed) (payload : Payload) (built : Built) (index : ℕ)
      → e.latest_payload ≡ some (built, index)
      → node.built_id built ≡ payload.payload_id
      → payload.index ≤ index
      → process_flashblock node e payload
        ≡ (record e { pending_block = node.executed_block built }, ok tt)
  unfolding process_flashblock already_processed
  seen_latest e payload built index h id le = ground arith

  -- the effects that a failing call cannot have
  abbrev pub Unchanged : Executor Built Executed → Executor Built Executed → Type 0
  Unchanged e e' =
      (e'.flashblocks ≡ e.flashblocks)
      × (e'.pending_block ≡ e.pending_block)
      × (e'.broadcasts ≡ e.broadcasts)
      × ((e'.latest_payload ≡ e.latest_payload) ⊎ (e'.latest_payload ≡ none))

  store_fails :
      (e : Executor Built Executed) (fb : Flashblock) (built : Built) (x : Error)
      → (store node e fb built).1 ≡ err x
      → (store node e fb built).0 ≡ e
  unfolding store
  store_fails e fb built x h = ground arith

  build_and_store_fails :
      (e : Executor Built Executed) (fb : Flashblock) (b : ExecutionPayloadBaseV1) (x : Error)
      → (build_and_store node e fb b).1 ≡ err x
      → (build_and_store node e fb b).0 ≡ e
  unfolding build_and_store
  build_and_store_fails e fb b x h = grind (arith, store_fails)

  process_unseen_fails :
      (e : Executor Built Executed) (fb : Flashblock) (x : Error)
      → (process_unseen node e fb).1 ≡ err x
      → Unchanged e (process_unseen node e fb).0
  unfolding process_unseen
  process_unseen_fails e fb x h = grind (arith, build_and_store_fails)

  -- A call of process_flashblock that fails leaves the collection, the pending block and the
  -- broadcasts as they were, and leaves the latest payload or forgets it.
  pub process_flashblock_fails :
      (e : Executor Built Executed) (payload : Payload) (x : Error)
      → (process_flashblock node e payload).1 ≡ err x
      → Unchanged e (process_flashblock node e payload).0
  unfolding process_flashblock
  process_flashblock_fails e payload x h =
      grind (arith, process_unseen_fails e (record { flashblock = payload }) x)

  unseen_opening :
      (e : Executor Built Executed) (fb : Flashblock)
      → IsCoherent node.built_id e
      → Opens e.flashblocks fb
      → already_processed node e fb ≡ none
  unfolding already_processed
  unseen_opening e fb v opens = elim (Option-cases e.latest_payload) [
    | inl none_yet ↦ ground arith
    | inr ((built, index), latest) ↦
        let current = subst (λ l. Current node.built_id e.flashblocks l) latest v.1 in
        elim (ℕ_discrete (node.built_id built) fb.payload_id) [
          | yes same ↦ absurd (opens.0 (current.0 ∙ ap ok same))
          | no other ↦ ground arith
        ]
  ]

  forgotten :
      (e : Executor Built Executed) (payload : Payload) (b : ExecutionPayloadBaseV1) (x : Error)
      → IsCoherent node.built_id e
      → Opens e.flashblocks (record { flashblock = payload })
      → payload.base ≡ some b
      → build_payload node none (record { flashblock = payload }) b ≡ err x
      → process_flashblock node e payload ≡ (record e { latest_payload = none }, err x)
  unfolding process_flashblock process_unseen build_and_store
  forgotten e payload b x v opens based failed =
      let fb : Flashblock = record { flashblock = payload } in
      let unseen = unseen_opening e fb v opens in
      let fresh = Opens-is_new_payload e.flashblocks fb v.0 opens in ground arith

  committed_none :
      (fb : Flashblock) (b : ExecutionPayloadBaseV1) (r : BuildRequest Tx Built Header Env Db)
      → build_request node none fb b ≡ ok r
      → r.committed_payload ≡ none
  unfolding build_request
  committed_none fb b r h = ground arith

  -- On a coherent executor, where the first flashblock of a later payload cannot be built,
  -- process_flashblock keeps the collection of the old payload, and whatever is requested next is
  -- built on no committed payload.
  pub process_flashblock_forgets :
      (e : Executor Built Executed) (payload : Payload) (b : ExecutionPayloadBaseV1) (x : Error)
      → IsCoherent node.built_id e
      → Opens e.flashblocks (record { flashblock = payload })
      → payload.base ≡ some b
      → build_payload node none (record { flashblock = payload }) b ≡ err x
      → let e' = (process_flashblock node e payload).0 in
        (e'.flashblocks ≡ e.flashblocks)
        × ((fb : Flashblock) (b' : ExecutionPayloadBaseV1) (r : BuildRequest Tx Built Header Env Db)
            → build_request node e'.latest_payload fb b' ≡ ok r
            → r.committed_payload ≡ none)
  process_flashblock_forgets e payload b x v opens based failed =
      let left = forgotten e payload b x v opens based failed in
      (
        ap (λ (s : Executor Built Executed × Result Error (Unit {0})). s.0.flashblocks) left,
        λ fb b' r h. committed_none fb b' r (
            ap
              (λ (s : Executor Built Executed × Result Error (Unit {0})).
                build_request node s.0.latest_payload fb b')
              (sym left)
            ∙ h),
      )
