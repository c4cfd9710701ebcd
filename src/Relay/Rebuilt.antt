-- ===== src/Relay/Rebuilt.antt =====
-- What a job publishes, in whatever order it arrives, is what the other node's latest payload holds.
use rblib_world_chain.Prelude.{ℕ, ◌≡◌, none}
use rblib_world_chain.Primitives.Data.{Bytes}
use rblib_world_chain.Primitives.Collection.{Flashblocks, payload_id}
use rblib_world_chain.Executor.Request.{Node}
use rblib_world_chain.Executor.{Executor}
use rblib_world_chain.Job
use rblib_world_chain.P2p.{P2pState, slot}
use rblib_world_chain.P2p.Invariant.{IsOrdered}
use rblib_world_chain.Block.{BuiltPayload, ExecutedBlock, EvmEnv, Chain, StateProvider}
use rblib_world_chain.Block.Builder.{Parent, Engine}
use rblib_world_chain.Block.Follower.Built.{IsExact}
use rblib_world_chain.Block.Follower.Transactions.{Reached}
use rblib_world_chain.Relay.Collected.{full_node, Follower}

-- A protocol state that waits for the first flashblock of the payload, and has none of it.
pub record Waits (id : ℕ) (s : P2pState) : Type 0 where
  pub ordered : IsOrdered s
  pub at_start : s.flashblock_index ≡ 0
  pub empty : (i : ℕ) → slot s.flashblocks i ≡ none
  pub same_id : id ≡ s.payload_id

module _ {Accounts Db Cache Info Slots : Type 0} (chain : Chain Accounts)
    (engine : Engine Accounts Db Cache Info Slots) (provider : Db → StateProvider Accounts)
    (node : Node Bytes (BuiltPayload Accounts) (ExecutedBlock Accounts) Parent EvmEnv Db)
    (exact : IsExact chain engine provider node) where
  abbrev pub follower : Node Bytes (BuiltPayload Accounts) (ExecutedBlock Accounts) Parent EvmEnv Db
  follower = full_node chain engine provider node

  abbrev Reach : Follower chain engine provider node → Type 0
  Reach e = Reached chain engine provider node e

  abbrev Collects : Follower chain engine provider node → Flashblocks → Type 0
  Collects e fs = Reach e × (e.flashblocks ≡ fs)
