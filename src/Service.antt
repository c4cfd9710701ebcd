-- ===== src/Service.antt =====
-- src/flashblocks/p2p.rs, src/flashblocks/state.rs: a node that publishes what it builds. Its executor,
-- its protocol state with the connections, and the task of `launch`, which reads the stream that the
-- node's own publications feed too.
-- The publications of the step, the rounds of the task and the events of the network follow one
-- another in any order; each holds the lock of what it changes. The stream is the log of what was
-- sent, and the task has read a part of it; a task that lags is not modelled here.
-- The clock of the node's own publications is one argument, an event of the network has its own.
pub mod Emitted
pub mod Echo
pub mod Linked
pub mod Aging
pub mod Own
pub mod Orderly
pub mod Prompt
pub mod Stream
mod Tests
use rblib_world_chain.Prelude.{ℕ, ◌+◌, Option, none, some, List, [], ◌∷◌, get_elem?, ok, err}
use rblib_world_chain.Primitives.Data.{Payload, Bytes}
use rblib_world_chain.P2p.{P2pMsg}
use rblib_world_chain.Network
use rblib_world_chain.Network.{Network, publish_new}
use rblib_world_chain.Executor.Request.{Node}
use rblib_world_chain.Executor.{Executor, publish_built_payload, process_flashblock}
use rblib_world_chain.Executor

pub record Service (Built Executed : Type 0) : Type 0 where
  pub executor : Executor Built Executed
  pub network : Network
  -- how many flashblocks of the stream the task has read
  pub taken : ℕ

pub data ServiceEvent (Built : Type 0) : Type 0 where
  -- `FlashblocksP2p::publish`, of a flashblock and the payload built with it
  built : Payload → Built → ServiceEvent Built
  -- a round of the task, if a flashblock waits
  next_round : ServiceEvent Built
  network : Network.Event → ServiceEvent Built

module _ {Built Executed : Type 0} where
  -- `FlashblocksStateExecutor::new` over `FlashblocksHandle::new`, with the task launched
  abbrev pub new_service_state : Service Built Executed
  new_service_state = record { executor = Executor.new; network = Network.new; taken = 0 }

  -- The flashblock that the task reads next.
  abbrev pub unread : Service Built Executed → Option Payload
  unread s = get_elem? s.network.stream s.taken

module _ {Tx Built Executed Header Env Db : Type 0} (node : Node Tx Built Executed Header Env Db)
    (decode : Bytes → Option P2pMsg) (encode : P2pMsg → Bytes) (now : ℕ) where
  -- The flashblock goes to the network only if the executor has accepted it.
  unfoldable pub publish_payload : Service Built Executed → Payload → Built → Service Built Executed
  publish_payload s payload built_payload =
      elim (publish_built_payload s.executor payload built_payload) [
        | err _ ↦ s
        | ok (executor, flashblock) ↦ record s {
          executor = executor;
          network = publish_new decode encode now s.network flashblock;
        }
      ]

  -- A round of the task; an error is logged and dropped.
  unfoldable pub process_next : Service Built Executed → Service Built Executed
  process_next s = elim (unread s) [
    | none ↦ s
    | some flashblock ↦ record s {
      executor = (process_flashblock node s.executor flashblock).0;
      taken = s.taken + 1;
    }
  ]

  unfoldable pub handle : Service Built Executed → ServiceEvent Built → Service Built Executed
  unfolding publish_payload process_next
  handle s (built payload built_payload) = publish_payload s payload built_payload
  handle s next_round = process_next s
  handle s (network e) = record s { network = Network.step decode encode s.network e }

  -- The events in their order.
  unfoldable pub handle_all :
      Service Built Executed → List (ServiceEvent Built) → Service Built Executed
  unfolding handle
  handle_all s [] = s
  handle_all s (e ∷ es) = handle_all (handle s e) es
