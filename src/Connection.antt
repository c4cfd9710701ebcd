-- ===== src/Connection.antt =====
-- src/flashblocks/connection.rs: one connection to a peer, with the flashblocks it has received from
-- that peer, its handler of a received flashblock, and its `poll_next`.
-- The two streams that `poll_next` polls are queues of what is ready: an empty queue stands for
-- `Pending`, or for the end of the stream where a flag says so. A broadcast that `publish` sends
-- reaches the queue of this connection too, since it subscribes to the same channel.
pub mod Received
pub mod Handle
pub mod Poll
mod Tests
use rblib_world_chain.Prelude.{
  ℕ, zero, suc, ◌+◌, ◌-◌, Bool, true, false, not, ◌||◌, Option, none, some, List, [], ◌∷◌, ◌++◌,
  length, fill, set, replicate, map, ltb, ◌==◌, if◌then◌else◌,
}
use rblib_world_chain.Primitives.Data.{Payload, Bytes}
use rblib_world_chain.P2p.{
  P2pMsg, PeerMsg, P2pState, Outbox, no_output, publish, max_flashblock_index,
}

pub data ReputationChangeKind : Type 0 where
  bad_message already_seen_transaction : ReputationChangeKind

-- The fields that the methods change. The peer's id and the handles stay as they are.
pub record Connection : Type 0 where
  pub payload_id : ℕ
  pub received : List Bool

-- `FlashblocksConnection::new`
abbrev pub new_connection : Connection
new_connection = record { payload_id = 0; received = [] }

-- `received.get(i) == Some(&true)`
unfoldable pub has_received : List Bool → ℕ → Bool
has_received [] i = false
has_received (b ∷ bs) zero = b
has_received (b ∷ bs) (suc i) = has_received bs i

-- The effects of a call: the connection, the shared state, what was sent, and the reports to the
-- network.
pub record Effect : Type 0 where
  pub conn : Connection
  pub state : P2pState
  pub outbox : Outbox
  pub reports : List ReputationChangeKind

-- `if len < required_len { resize(required_len, false) }`
unfoldable pub resize : List Bool → ℕ → List Bool
resize bs required_len =
    if ltb (length bs) required_len then bs ++ replicate (required_len - length bs) false else bs

-- Step 1: a flashblock of another payload clears what this peer has sent.
unfoldable pub start_payload : Connection → Payload → Connection
start_payload c p =
    if not (c.payload_id == p.payload_id)
    then record { payload_id = p.payload_id; received = fill c.received false }
    else c

module _ (encode : P2pMsg → Bytes) (now : ℕ) where
  -- Steps 2 to 4.
  unfoldable pub accept : Connection → P2pState → Payload → Effect
  accept c s p =
      if ltb max_flashblock_index p.index
      then record { conn = c; state = s; outbox = no_output; reports = [] }
      else (let grown = record c { received = resize c.received (p.index + 1) } in
          if has_received grown.received p.index
          then record {
            conn = grown;
            state = s;
            outbox = no_output;
            reports = ReputationChangeKind.already_seen_transaction ∷ [];
          }
          else (let published = publish encode now s p in
              record {
                conn = record grown { received = set grown.received p.index true };
                state = published.0;
                outbox = published.1;
                reports = [];
              }))

  unfoldable pub handle_flashblocks_payload_v1 : Connection → P2pState → Payload → Effect
  unfolding start_payload
  handle_flashblocks_payload_v1 c s p = accept (start_payload c p) s p

-- What `peer_rx` yields: a message, or the error that the receiver has lagged behind.
pub data PeerEvent : Type 0 where
  message : PeerMsg → PeerEvent
  lagged : PeerEvent

pub data Polled : Type 0 where
  pending : Polled
  ready : Option Bytes → Polled

-- What a poll returns, what it leaves in the two queues, and its effects.
pub record PollOutcome : Type 0 where
  pub result : Polled
  pub peer_rx : List PeerEvent
  pub frames : List Bytes
  pub effect : Effect

-- Whether a broadcast is passed on: unless this peer sent the same flashblock.
unfoldable pub forwards : Connection → PeerMsg → Option Bytes
unfolding has_received
forwards c (PeerMsg.flashblocks_payload_v1 id index bytes) =
    if not (c.payload_id == id) || not (has_received c.received index) then some bytes else none

-- One look at `peer_rx`: the bytes to send, if any, and the rest of the queue.
unfoldable pub next_broadcast : Connection → List PeerEvent → Option Bytes × List PeerEvent
unfolding forwards
next_broadcast c [] = (none, [])
next_broadcast c (lagged ∷ rest) = (none, rest)
next_broadcast c (message m ∷ rest) = (forwards c m, rest)

abbrev pub and_then : Effect → Effect → Effect
and_then a b = record b {
  outbox = record {
    peers = a.outbox.peers ++ b.outbox.peers;
    stream = a.outbox.stream ++ b.outbox.stream;
  };
  reports = a.reports ++ b.reports;
}

-- Nothing done.
abbrev pub idle : Connection → P2pState → Effect
idle c s = record { conn = c; state = s; outbox = no_output; reports = [] }

module _ (decode : Bytes → Option P2pMsg) (encode : P2pMsg → Bytes) (now : ℕ) where
  -- The loop, one round for each frame: `None` ends the stream, after a frame that cannot be decoded
  -- as well as when the peer is gone.
  unfoldable pub poll_next :
      (frames : List Bytes) → Bool → List PeerEvent → Connection → P2pState → PollOutcome
  poll_next [] closed peer_rx c s =
      let (out, rest) = next_broadcast c peer_rx in
      elim out [
        | some bytes ↦ record {
          result = ready (some bytes);
          peer_rx = rest;
          frames = [];
          effect = idle c s;
        }
        | none ↦ record {
          result = if closed then ready none else pending;
          peer_rx = rest;
          frames = [];
          effect = idle c s;
        }
      ]
  poll_next (buf ∷ frames) closed peer_rx c s =
      let (out, rest) = next_broadcast c peer_rx in
      elim out [
        | some bytes ↦ record {
          result = ready (some bytes);
          peer_rx = rest;
          frames = buf ∷ frames;
          effect = idle c s;
        }
        | none ↦ elim (decode buf) [
          | none ↦ record {
            result = ready none;
            peer_rx = rest;
            frames = frames;
            effect = record (idle c s) { reports = ReputationChangeKind.bad_message ∷ [] };
          }
          | some (P2pMsg.flashblocks_payload_v1 p) ↦
              let e = handle_flashblocks_payload_v1 encode now c s p in
              let later =
                poll_next frames closed (rest ++ map message e.outbox.peers) e.conn e.state in
              record later { effect = and_then e later.effect }
        ]
      ]
