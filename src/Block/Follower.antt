-- ===== src/Block/Follower.antt =====
-- The executor of src/flashblocks/state.rs with the builder of src/flashblocks/builder.rs in the place
-- of its parameter: a node that follows the stream of flashblocks.
-- The rest of the node, and the state of a block, stay parameters.
pub mod Built
pub mod Transactions
mod Tests
use mathlib.Core.Option
use mathlib.Core.Option.{some-injective}
use mathlib.Core.Path.{subst}
use rblib_world_chain.Prelude.{
  ℕ, ◌≡◌, refl, sym, ap, ap₂, ◌∙◌, Option, none, some, List, [], ◌∷◌, ◌++◌, map, Bool, true, false,
  Result, ok, err, collect, arith, ok_or, bind_ok, Result-cases, Option-cases, Bool-cases, inl, inr,
  append_assoc, append-nil, if◌then◌else◌,
}
use rblib_world_chain.Primitives.Data.{Bytes, Payload, Flashblock, ExecutionPayloadBaseV1}
use rblib_world_chain.Primitives.Collection.{Flashblocks, push, is_new_payload}
use rblib_world_chain.Primitives.Collection
use rblib_world_chain.Executor.Request.{
  Node, BuildRequest, Outcome, freeze, better, build_request, retry, payload_of, decode,
  build_payload,
}
use rblib_world_chain.Executor.Request
use rblib_world_chain.Executor.{
  Executor, new, process_flashblock, process_unseen, build_and_store, store, already_processed,
  broadcast_payload,
}
use rblib_world_chain.Executor.Invariant.{
  IsFaithful, IsCoherent, process_flashblock-IsCoherent, new-IsCoherent,
}
use rblib_world_chain.Block.{
  BuiltPayload, ExecutedBlock, EvmEnv, Chain, StateProvider, flat_map, unwrap_or,
}
use rblib_world_chain.Block.Builder.{Parent, Engine}
use rblib_world_chain.Block.Builder.Build.{build}
use rblib_world_chain.Block.Builder.Payload.{committed_txs, Answers, build-Answers}

module _ {Accounts Db Cache Info Slots : Type 0} (chain : Chain Accounts)
    (engine : Engine Accounts Db Cache Info Slots) (provider : Db → StateProvider Accounts)
    (node : Node Bytes (BuiltPayload Accounts) (ExecutedBlock Accounts) Parent EvmEnv Db) where
  -- The node, with `FlashblockBuilder::build` for its builder.
  abbrev pub builder_node :
      Node Bytes (BuiltPayload Accounts) (ExecutedBlock Accounts) Parent EvmEnv Db
  builder_node = record node {
    built_id = λ p. p.id;
    executed_block = λ p. p.executed_block;
    build = λ request. elim (build chain engine (provider request.db) request) [
      | ok outcome ↦ some outcome
      | err _ ↦ none
    ];
  }

  chosen :
      (fixed : Bool) (payload : BuiltPayload Accounts)
      → payload_of builder_node (if fixed then freeze payload else better payload) ≡ some payload
  chosen true payload = refl
  chosen false payload = refl

  pub built-Answers :
      (request : BuildRequest Bytes (BuiltPayload Accounts) Parent EvmEnv Db)
      (outcome : Outcome (BuiltPayload Accounts))
      → builder_node.build request ≡ some outcome
      → (built : BuiltPayload Accounts) × (payload_of builder_node outcome ≡ some built)
        × Answers chain engine request built
  built-Answers request outcome h =
      elim (Result-cases (build chain engine (provider request.db) request)) [
        | inl (o, e) ↦
            let (payload, made, answers) =
              build-Answers chain engine (provider request.db) request o e in
            let same : outcome ≡ o = ground arith in
            (
              payload,
              ap (payload_of builder_node) (same ∙ made)
                  ∙ chosen request.attributes.no_tx_pool payload,
              answers,
            )
        | inr (x, e) ↦ absurd (ground arith)
      ]

  -- The builder keeps the contract that the executor relies on: whatever the outcome, a payload that
  -- FlashblockBuilder::build returns has the requested payload id.
  pub builder_node-IsFaithful : IsFaithful builder_node
  builder_node-IsFaithful request outcome built h k =
      let (payload, chosen_eq, answers) = built-Answers request outcome h in
      let same : built ≡ payload = ground arith in ap (λ p. p.id) same ∙ answers.0
