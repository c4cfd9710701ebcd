-- ===== src/Network.antt =====
-- src/flashblocks/p2p.rs: the handle and the protocol handler, with the connections of
-- src/flashblocks/connection.rs that share the handle's state and channels.
-- An event is one call that takes the lock, or one poll of a connection, each at a time of its own; all
-- that one poll publishes bears the time of the poll. A broadcast reaches the queue
-- of every connection that has subscribed; a receiver that lags loses the oldest messages and finds
-- an error in their place.
pub mod Stream
pub mod Subscription
mod Tests
use rblib_world_chain.Prelude.{
  ℕ, zero, suc, Bool, Option, none, some, List, [], ◌∷◌, ◌++◌, map, get_elem?, set, drop,
}
use rblib_world_chain.Primitives.Data.{Payload, Bytes}
use rblib_world_chain.P2p.{P2pMsg, PeerMsg, P2pState, Outbox, default_state, publish}
use rblib_world_chain.Connection.{Connection, new_connection, PeerEvent, message, lagged, poll_next}

-- The name and the version of `Capability::new_static`.
abbrev pub protocol_version : ℕ
protocol_version = 1

-- A connection with its receiver of broadcasts, and the frames of the peer that are not read yet.
pub record Endpoint : Type 0 where
  pub conn : Connection
  pub frames : List Bytes
  pub peer_rx : List PeerEvent

-- The handle, the connections of the protocol, and what subscribers of the stream have been sent.
pub record Network : Type 0 where
  pub state : P2pState
  pub connections : List Endpoint
  pub stream : List Payload

-- `FlashblocksHandle::new`, before any connection.
abbrev pub new : Network
new = record { state = default_state; connections = []; stream = [] }

abbrev pub remove {ℓ} : {A : Type ℓ} → ℕ → List A → List A
remove i [] = []
remove zero (x ∷ xs) = xs
remove (suc i) (x ∷ xs) = x ∷ remove i xs

-- `peer_tx.send`, to every subscriber.
abbrev pub broadcast : List PeerMsg → List Endpoint → List Endpoint
broadcast msgs endpoints =
    map (λ (e : Endpoint). record e { peer_rx = e.peer_rx ++ map message msgs }) endpoints

-- `into_connection`: a new connection subscribes, and sees no earlier broadcast.
unfoldable pub into_connection : Network → Network
into_connection n = record n {
  connections = n.connections ++ (record { conn = new_connection; frames = []; peer_rx = [] } ∷ []);
}

pub data Event : Type 0 where
  -- a peer connects, or leaves
  connected : Event
  disconnected : ℕ → Event
  -- `publish_new`, of a flashblock of this node, at a time
  published : (now : ℕ) → Payload → Event
  -- a frame comes from a peer
  received : ℕ → Bytes → Event
  -- a poll of a connection at a time, with whether the peer is gone
  polled : (now : ℕ) → ℕ → Bool → Event
  -- a receiver loses messages
  overrun : ℕ → ℕ → Event

module _ (decode : Bytes → Option P2pMsg) (encode : P2pMsg → Bytes) where
  unfoldable pub publish_new : (now : ℕ) → Network → Payload → Network
  publish_new now n p =
      let (s, out) = publish encode now n.state p in
      record n {
        state = s;
        connections = broadcast out.peers n.connections;
        stream = n.stream ++ out.stream;
      }

  unfoldable pub poll_connection : (now : ℕ) → Network → ℕ → Bool → Network
  poll_connection now n i closed = elim (get_elem? n.connections i) [
    | none ↦ n
    | some endpoint ↦
        let outcome =
          poll_next decode encode now endpoint.frames closed endpoint.peer_rx endpoint.conn
            n.state in
        let sent = outcome.effect.outbox in
        record {
          state = outcome.effect.state;
          connections = set (broadcast sent.peers n.connections) i (record {
            conn = outcome.effect.conn;
            frames = outcome.frames;
            peer_rx = outcome.peer_rx;
          });
          stream = n.stream ++ sent.stream;
        }
  ]

  abbrev overrun_at : ℕ → ℕ → List Endpoint → List Endpoint
  overrun_at i lost endpoints = elim (get_elem? endpoints i) [
    | none ↦ endpoints
    | some endpoint ↦
        set endpoints i (record endpoint { peer_rx = lagged ∷ drop lost endpoint.peer_rx })
  ]

  abbrev receive_at : ℕ → Bytes → List Endpoint → List Endpoint
  receive_at i frame endpoints = elim (get_elem? endpoints i) [
    | none ↦ endpoints
    | some endpoint ↦ set endpoints i (record endpoint { frames = endpoint.frames ++ (frame ∷ []) })
  ]

  unfoldable pub step : Network → Event → Network
  unfolding into_connection publish_new poll_connection
  step n connected = into_connection n
  step n (disconnected i) = record n { connections = remove i n.connections }
  step n (published now p) = publish_new now n p
  step n (received i frame) = record n { connections = receive_at i frame n.connections }
  step n (polled now i closed) = poll_connection now n i closed
  step n (overrun i lost) = record n { connections = overrun_at i lost n.connections }

  -- The events in their order.
  unfoldable pub run : Network → List Event → Network
  unfolding step
  run n [] = n
  run n (e ∷ es) = run (step n e) es
