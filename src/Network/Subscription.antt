-- ===== src/Network/Subscription.antt =====
-- `flashblock_stream` of src/flashblocks/p2p.rs, and the loop that `launch` of
-- src/flashblocks/state.rs runs over it.
-- The receiver of a broadcast yields a flashblock, or the error that it has lagged behind.
pub mod Snapshot
use rblib_world_chain.Prelude.{ℕ, Option, none, some, List, [], ◌∷◌, ◌++◌}
use rblib_world_chain.Primitives.Data.{Payload}
use rblib_world_chain.P2p.{P2pState}
use rblib_world_chain.Executor.Request.{Node}
use rblib_world_chain.Executor.{Executor, process_flashblock}

-- `map_while`, over slots that may be empty and over receipts that may be errors.
unfoldable pub map_while : List (Option Payload) → List Payload
map_while [] = []
map_while (none ∷ os) = []
map_while (some p ∷ os) = p ∷ map_while os

-- What a subscriber sees: the slots when it subscribes, and then what it receives.
unfoldable pub flashblock_stream : P2pState → List (Option Payload) → List Payload
unfolding map_while
flashblock_stream s received = map_while s.flashblocks ++ map_while received

module _ {Tx Built Executed Header Env Db : Type 0}
    (node : Node Tx Built Executed Header Env Db) where
  -- The task of `launch`: an error is logged, and the loop goes on until the stream ends.
  unfoldable pub launch : Executor Built Executed → List Payload → Executor Built Executed
  launch e [] = e
  launch e (p ∷ ps) = launch (process_flashblock node e p).0 ps
