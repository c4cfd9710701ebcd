-- ===== src/Network/Tests.antt =====
-- Runs of a network with two connections, and of a subscriber.
use rblib_world_chain.Prelude.{
  ◌≡◌, refl, Option, none, some, false, List, [], ◌∷◌, map, length, inl,
}
use rblib_world_chain.Primitives.Data.{Payload, Bytes}
use rblib_world_chain.Primitives.Samples.{sample}
use rblib_world_chain.P2p.{
  P2pMsg, default_state, publish, publish_all, admit, start_payload, cache, drain, slot, resize,
}
use rblib_world_chain.P2p.Invariant.{InOrder, default_state-IsOrdered}
use rblib_world_chain.Connection.{
  handle_flashblocks_payload_v1, accept, poll_next, next_broadcast, forwards, has_received,
}
use rblib_world_chain.Connection
use rblib_world_chain.Network.{
  Event, new, connected, disconnected, received, published, polled, overrun, step, run, publish_new,
  poll_connection, into_connection,
}
use rblib_world_chain.Network.Stream.{IsStreaming, run-IsStreaming}
use rblib_world_chain.Network.Subscription.{flashblock_stream}
use rblib_world_chain.Network.Subscription.Snapshot.{flashblock_stream-InOrder}

abbrev encoded : P2pMsg → Bytes
encoded (P2pMsg.flashblocks_payload_v1 p) = p.payload_id ∷ p.index ∷ []

abbrev decoded : Bytes → Option P2pMsg
decoded (id ∷ index ∷ []) = some (P2pMsg.flashblocks_payload_v1 (sample id index none))
decoded bytes = none

-- One peer sends flashblocks 1 and 0, this node publishes 2, and the other peer is polled.
abbrev events : List Event
events =
    connected
    ∷ connected
    ∷ received 0 (7 ∷ 1 ∷ [])
    ∷ polled 9 0 false
    ∷ published 10 (sample 7 2 none)
    ∷ received 0 (7 ∷ 0 ∷ [])
    ∷ polled 12 0 false
    ∷ polled 13 0 false
    ∷ polled 13 1 false
    ∷ overrun 0 1
    ∷ disconnected 1
    ∷ []

streamed : map (λ (p : Payload). p.index) (run decoded encoded new events).stream ≡ 0 ∷ 1 ∷ 2 ∷ []
unfolding run step publish_new poll_connection into_connection poll_next next_broadcast forwards
    has_received handle_flashblocks_payload_v1 accept Connection.resize Connection.start_payload
    publish admit start_payload cache drain slot resize
streamed = refl

run-IsStreaming_example : IsStreaming (run decoded encoded new events)
run-IsStreaming_example =
    run-IsStreaming decoded encoded events new (default_state-IsOrdered, inl (refl, refl))

abbrev calls : List Payload
calls = sample 0 1 none ∷ sample 0 0 none ∷ []

flashblock_stream-InOrder_example :
    let (t, out) = publish_all encoded 9 default_state calls in
    let seen = flashblock_stream default_state (map some out.stream) in
    InOrder 0 0 seen × (length seen ≡ t.flashblock_index)
unfolding slot
flashblock_stream-InOrder_example =
    flashblock_stream-InOrder encoded 9 default_state calls default_state-IsOrdered refl
      (refl, (refl, tt))
