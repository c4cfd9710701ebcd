-- ===== src/Executor.antt =====
-- src/flashblocks/state.rs: the executor's state, what it does with a payload that this node has
-- built, and with a flashblock that comes from the stream.
-- The lock makes each call atomic. The provider, the EVM configuration, the transaction decoder and
-- the builder are the fields of `Node`; a `Built` is an `OpBuiltPayload`. The channels are the last
-- value sent (`pending_block`) and the log of what was sent (`broadcasts`).
pub mod Request
pub mod Publication
pub mod Invariant
pub mod Failure
mod Tests
use rblib_world_chain.Prelude.{
  ℕ, Bool, true, false, ◌&&◌, Option, none, some, List, [], ◌∷◌, ◌++◌, ◌==◌, leb, if◌then◌else◌,
  Result, ok, err, ◌>>=◌, ok_or,
}
use rblib_world_chain.Primitives.Data.{Payload, Flashblock, ExecutionPayloadBaseV1}
use rblib_world_chain.Primitives.Collection.{
  Flashblocks, panicked, default_flashblocks, is_new_payload, push,
}
use rblib_world_chain.Primitives.Collection
use rblib_world_chain.Executor.Request.{Node, Error, refused, build_payload}

pub record Executor (Built Executed : Type 0) : Type 0 where
  pub flashblocks : Flashblocks
  pub latest_payload : Option (Built × ℕ)
  -- whether a channel for built payloads is registered
  pub payload_events : Bool
  pub pending_block : Option Executed
  pub broadcasts : List Built

module _ {Built Executed : Type 0} where
  -- `FlashblocksStateExecutor::new`
  abbrev pub new : Executor Built Executed
  new = record {
    flashblocks = default_flashblocks;
    latest_payload = none;
    payload_events = false;
    pending_block = none;
    broadcasts = [];
  }

  -- What the readers of the executor get: the last flashblock, where `unwrap` panics, and all of them.
  abbrev pub last_flashblock : Executor Built Executed → Result Collection.Error Flashblock
  last_flashblock e = Collection.last e.flashblocks

  abbrev pub all_flashblocks : Executor Built Executed → Flashblocks
  all_flashblocks e = e.flashblocks

  unfoldable pub register_payload_events : Executor Built Executed → Executor Built Executed
  register_payload_events e = record e { payload_events = true }

  -- An error of `send` is logged and dropped.
  unfoldable pub broadcast_payload : Executor Built Executed → Built → Executor Built Executed
  broadcast_payload e built =
      if e.payload_events then record e { broadcasts = e.broadcasts ++ (built ∷ []) } else e

  -- The new state and the flashblock for `publish_new`, or an error that leaves the state as it was.
  unfoldable pub publish_built_payload :
      Executor Built Executed
      → Payload
      → Built
      → Result Collection.Error (Executor Built Executed × Payload)
  publish_built_payload e payload built =
      push e.flashblocks (record { flashblock = payload }) >>= λ pushed.
      ok
        (record e { flashblocks = pushed.0; latest_payload = some (built, payload.index) }, payload)

module _ {Tx Built Executed Header Env Db : Type 0}
    (node : Node Tx Built Executed Header Env Db) where
  -- The latest payload, if the flashblock is of it and not beyond it.
  unfoldable pub already_processed : Executor Built Executed → Flashblock → Option Built
  already_processed e fb = elim e.latest_payload [
    | none ↦ none
    | some (built, index) ↦
        if (node.built_id built == fb.payload_id) && leb fb.index index then some built else none
  ]

  -- After the build: `push`, the latest payload, the pending block and the event.
  unfoldable pub store :
      Executor Built Executed
      → Flashblock
      → Built
      → Executor Built Executed × Result Error (Unit {0})
  unfolding broadcast_payload
  store e fb built = elim (push e.flashblocks fb) [
    | err x ↦ (e, err (refused x))
    | ok (fs, _) ↦ (
      broadcast_payload
          (record e {
            flashblocks = fs;
            latest_payload = some (built, fb.index);
            pending_block = node.executed_block built;
          })
          built,
      ok tt,
    )
  ]

  -- From the chosen base on; the builder's other outcomes end the call with no change.
  unfoldable pub build_and_store :
      Executor Built Executed
      → Flashblock
      → ExecutionPayloadBaseV1
      → Executor Built Executed × Result Error (Unit {0})
  unfolding store
  build_and_store e fb b = elim (build_payload node e.latest_payload fb b) [
    | err x ↦ (e, err x)
    | ok none ↦ (e, ok tt)
    | ok (some built) ↦ store e fb built
  ]

  -- The base: the flashblock's own for a new payload, which also forgets the latest payload.
  unfoldable pub process_unseen :
      Executor Built Executed → Flashblock → Executor Built Executed × Result Error (Unit {0})
  unfolding build_and_store
  process_unseen e fb = elim (is_new_payload e.flashblocks fb) [
    | err x ↦ (e, err (refused x))
    | ok true ↦
        let forgotten = record e { latest_payload = none } in
        elim fb.base [
          | none ↦ (forgotten, err (refused panicked))
          | some b ↦ build_and_store forgotten fb b
        ]
    | ok false ↦ elim (Collection.base e.flashblocks) [
      | err x ↦ (e, err (refused x))
      | ok b ↦ build_and_store e fb b
    ]
  ]

  unfoldable pub process_flashblock :
      Executor Built Executed → Payload → Executor Built Executed × Result Error (Unit {0})
  unfolding already_processed process_unseen
  process_flashblock e payload =
      let fb : Flashblock = record { flashblock = payload } in
      elim (already_processed e fb) [
        | some built ↦ (record e { pending_block = node.executed_block built }, ok tt)
        | none ↦ process_unseen e fb
      ]
