-- ===== src/P2p.antt =====
-- src/flashblocks/p2p.rs: the state of the flashblocks protocol and `publish`, which buffers a
-- flashblock, sends it to the peers and emits what has become consecutive.
-- The broadcast channels are the two logs of an `Outbox`, in the order of the calls of `send`, whose
-- results the code drops. The encoding of a message and the clock are arguments.
pub mod Slots
pub mod Invariant
pub mod Drain
pub mod Publish
pub mod Delivery
pub mod Promise
pub mod Refinement
pub mod Prompt
pub mod Wire
mod Tests
use rblib_world_chain.Prelude.{
  ℕ, zero, suc, ◌+◌, ◌-◌, Option, none, some, List, [], ◌∷◌, ◌++◌, length, fill, set, replicate,
  ltb, ◌==◌, if◌then◌else◌, not,
}
use rblib_world_chain.Primitives.Data.{Payload, Bytes}

-- 1 << 24
abbrev pub max_frame : ℕ
max_frame = 16777216

abbrev pub max_flashblock_index : ℕ
max_flashblock_index = 100

pub data P2pMsg : Type 0 where
  flashblocks_payload_v1 : Payload → P2pMsg

-- A message to the connections: payload id, index and the encoded flashblock.
pub data PeerMsg : Type 0 where
  flashblocks_payload_v1 : ℕ → ℕ → Bytes → PeerMsg

pub record P2pState : Type 0 where
  pub payload_id : ℕ
  pub payload_timestamp : ℕ
  pub flashblock_timestamp : ℕ
  pub flashblock_index : ℕ
  pub flashblocks : List (Option Payload)

-- `FlashblocksP2PState::default()`, the state of `FlashblocksHandle::new`.
abbrev pub default_state : P2pState
default_state = record {
  payload_id = 0;
  payload_timestamp = 0;
  flashblock_timestamp = 0;
  flashblock_index = 0;
  flashblocks = [];
}

pub record Outbox : Type 0 where
  pub peers : List PeerMsg
  pub stream : List Payload

abbrev pub no_output : Outbox
no_output = record { peers = []; stream = [] }

-- `flashblocks.get(i)`, with `None` out of range and at an empty slot.
unfoldable pub slot : List (Option Payload) → ℕ → Option Payload
slot [] i = none
slot (o ∷ os) zero = o
slot (o ∷ os) (suc i) = slot os i

-- Step 1: a flashblock of another payload resets the state.
unfoldable pub start_payload : P2pState → Payload → P2pState
start_payload s p =
    if not (p.payload_id == s.payload_id)
    then record s {
      payload_id = p.payload_id;
      payload_timestamp = elim p.metadata.flashblock_timestamp [ none ↦ 0 | some t ↦ t ];
      flashblock_index = 0;
      flashblocks = fill s.flashblocks none;
    }
    else s

-- `if len < required_len { resize_with(required_len, || None) }`
unfoldable pub resize : List (Option Payload) → ℕ → List (Option Payload)
resize os required_len =
    if ltb (length os) required_len then os ++ replicate (required_len - length os) none else os

-- Step 5: the loop, with the flashblocks that it emits. It goes round at most `length` times, since
-- the index grows; `drain_stops` shows that this fuel is enough.
unfoldable pub drain : ℕ → ℕ → P2pState → P2pState × List Payload
unfolding slot
drain zero now s = (s, [])
drain (suc fuel) now s = elim (slot s.flashblocks s.flashblock_index) [
  | none ↦ (s, [])
  | some p ↦
      let rest =
        drain fuel now
          (record s { flashblock_timestamp = now; flashblock_index = s.flashblock_index + 1 }) in
      (rest.0, p ∷ rest.1)
]

module _ (encode : P2pMsg → Bytes) (now : ℕ) where
  -- Steps 3 to 5, at a slot that is free.
  unfoldable pub cache : P2pState → Payload → P2pState × Outbox
  cache s p =
      let cached = record s { flashblocks = set s.flashblocks p.index (some p) } in
      let bytes = encode (P2pMsg.flashblocks_payload_v1 p) in
      if ltb max_frame (length bytes)
      then (cached, no_output)
      else (let (emitted_to, stream) = drain (length cached.flashblocks) now cached in
          (
            emitted_to,
            record {
              peers = PeerMsg.flashblocks_payload_v1 p.payload_id p.index bytes ∷ [];
              stream = stream;
            },
          ))

  -- Steps 2 and 3: the index bound, the buffer's size and the check for a flashblock already held.
  unfoldable pub admit : P2pState → Payload → P2pState × Outbox
  admit s p =
      if ltb max_flashblock_index p.index
      then (s, no_output)
      else (let grown = record s { flashblocks = resize s.flashblocks (p.index + 1) } in
          elim (slot grown.flashblocks p.index) [
            | some _ ↦ (grown, no_output)
            | none ↦ cache grown p
          ])

  unfoldable pub publish : P2pState → Payload → P2pState × Outbox
  publish s p = admit (start_payload s p) p

  -- A sequence of calls, with all that they send.
  unfoldable pub publish_all : P2pState → List Payload → P2pState × Outbox
  publish_all s [] = (s, no_output)
  publish_all s (p ∷ ps) =
      let (s', out) = publish s p in
      let (s'', later) = publish_all s' ps in
      (s'', record { peers = out.peers ++ later.peers; stream = out.stream ++ later.stream })
