-- ===== src/Connection/Poll.antt =====
-- What `poll_next` sends, and where it stops.
use rblib_world_chain.Prelude.{
  ℕ, suc, zero, ◌≡◌, ◌++◌, ◌==◌, ◌&&◌, if◌then◌else◌, length, map, ◌⊎◌, refl, ap, ◌∙◌, true, false,
  none, some, Option, Bool, List, [], ◌∷◌, inl, inr, arith,
}
use native.Mathlib.Decide.{dec_le}
use rblib_world_chain.Primitives.Data.{Payload, Bytes}
use rblib_world_chain.P2p.{P2pMsg, PeerMsg, P2pState, Outbox, max_flashblock_index}
use rblib_world_chain.P2p.Publish.{publish_peers}
use rblib_world_chain.Connection.Handle.{
  handle_new, handle-Seen, handled_Seen, handled_before, handle_beyond,
}
use rblib_world_chain.Connection.{
  Connection, PeerEvent, Polled, lagged, message, pending, ready, poll_next, has_received,
  next_broadcast, forwards, handle_flashblocks_payload_v1,
}

-- The peer itself sent the flashblock of the broadcast.
abbrev pub FromPeer : Connection → PeerMsg → Type 0
FromPeer c (PeerMsg.flashblocks_payload_v1 id index bytes) =
    (c.payload_id ≡ id) × (has_received c.received index ≡ true)

forwards_own : (c : Connection) (m : PeerMsg) → FromPeer c m → forwards c m ≡ none
unfolding forwards
forwards_own c (PeerMsg.flashblocks_payload_v1 id index bytes) h = ground arith

forwards_other :
    (c : Connection) (id index : ℕ) (bytes : Bytes)
    → ¬ FromPeer c (PeerMsg.flashblocks_payload_v1 id index bytes)
    → forwards c (PeerMsg.flashblocks_payload_v1 id index bytes) ≡ some bytes
unfolding forwards
forwards_other c id index bytes h = ground arith

-- What a poll returns at an event: the bytes of a broadcast, unless this peer sent the flashblock.
abbrev pub answer : Connection → PeerEvent → Polled
answer c lagged = pending
answer c (message (PeerMsg.flashblocks_payload_v1 id index bytes)) =
    if (c.payload_id == id) && has_received c.received index then pending else ready (some bytes)

module _ (decode : Bytes → Option P2pMsg) (encode : P2pMsg → Bytes) (now : ℕ) where
  -- A number of polls in a row, with what they return and leave, while no frame comes.
  abbrev pub polls :
      ℕ
      → Connection
      → P2pState
      → List PeerEvent
      → List Polled × List PeerEvent × Connection × P2pState
  polls zero c s queue = ([], queue, c, s)
  polls (suc n) c s queue =
      let r = poll_next decode encode now [] false queue c s in
      let (results, left, c', s') = polls n r.effect.conn r.effect.state r.peer_rx in
      (r.result ∷ results, left, c', s')

  poll_one :
      (c : Connection) (s : P2pState) (event : PeerEvent) (rest : List PeerEvent)
      → let r = poll_next decode encode now [] false (event ∷ rest) c s in
        (r.result ≡ answer c event)
        × (r.peer_rx ≡ rest)
        × (r.effect.conn ≡ c)
        × (r.effect.state ≡ s)
  unfolding poll_next next_broadcast forwards
  poll_one c s lagged rest = (refl, refl, refl, refl)
  poll_one c s (message (PeerMsg.flashblocks_payload_v1 id index bytes)) rest = grind arith

  -- On an open connection with no frame waiting, as many polls as the first part of the queue of
  -- broadcasts has events take exactly these, one each, in order: a poll returns the bytes of a
  -- broadcast that the peer did not cause, and is pending at any other one and at a lag error,
  -- whatever waits behind it. The rest of the queue, the connection and the shared state are left as
  -- they were.
  pub polls_forward :
      (c : Connection) (s : P2pState) (before after : List PeerEvent)
      → polls (length before) c s (before ++ after) ≡ (map (answer c) before, after, c, s)
  polls_forward c s [] after = refl
  polls_forward c s (event ∷ before) after =
      let (result, queue, same, state) = poll_one c s event (before ++ after) in
      rw (result, queue, same, state, polls_forward c s before after) refl

  -- A broadcast at the head of the queue that the peer did not cause is sent to it at once: no frame
  -- is read and the shared state stays as it is.
  pub poll_next_sends :
      (c : Connection) (s : P2pState) (id index : ℕ) (bytes : Bytes) (rest : List PeerEvent)
      (frames : List Bytes) (closed : Bool)
      → ¬ FromPeer c (PeerMsg.flashblocks_payload_v1 id index bytes)
      → let m = PeerMsg.flashblocks_payload_v1 id index bytes in
        let r = poll_next decode encode now frames closed (message m ∷ rest) c s in
        (r.result ≡ ready (some bytes)) × (r.frames ≡ frames) × (r.effect.state ≡ s)
  unfolding poll_next next_broadcast
  poll_next_sends c s id index bytes rest [] closed h =
      rw (forwards_other c id index bytes h, poll_next) (refl, refl, refl)
  poll_next_sends c s id index bytes rest (f ∷ fs) closed h =
      rw (forwards_other c id index bytes h, poll_next) (refl, refl, refl)

  -- All that one handled flashblock can broadcast is that flashblock, under its id and index.
  handle_peers :
      (c : Connection) (s : P2pState) (p : Payload)
      → let e = handle_flashblocks_payload_v1 encode now c s p in
        (e.outbox.peers ≡ [])
        ⊎ ((bytes : Bytes) × (e.outbox.peers
              ≡ PeerMsg.flashblocks_payload_v1 p.payload_id p.index bytes ∷ [])
            × FromPeer e.conn (PeerMsg.flashblocks_payload_v1 p.payload_id p.index bytes))
  handle_peers c s p = elim (dec_le p.index max_flashblock_index) [
    | yes le ↦ elim (handled_before c p) [
      | inl seen ↦ inl (ap (λ (o : Outbox). o.peers) (handle-Seen encode now c s p le seen).1)
      | inr fresh ↦
          let sent =
            ap (λ (r : P2pState × Outbox). r.1.peers) (handle_new encode now c s p le fresh).0 in
          elim (publish_peers encode now s p) [
            | inl nothing ↦ inl (sent ∙ nothing)
            | inr one ↦ inr (_, sent ∙ one, handled_Seen encode now c s p le)
          ]
    ]
    | no beyond ↦
        inl (ap (λ (o : Outbox). o.peers) (handle_beyond encode now c s p (omega arith)).1)
  ]

  -- Where a frame decodes to a flashblock and nothing else is waiting on an open connection, the
  -- poll handles it, takes what publish broadcasts for it off the queue without sending it back, and
  -- is pending.
  pub poll_next_no_echo :
      (c : Connection) (s : P2pState) (buf : Bytes) (p : Payload)
      → decode buf ≡ some (P2pMsg.flashblocks_payload_v1 p)
      → let r = poll_next decode encode now (buf ∷ []) false [] c s in
        (r.result ≡ pending)
        × (r.peer_rx ≡ [])
        × (r.effect.state ≡ (handle_flashblocks_payload_v1 encode now c s p).state)
  unfolding poll_next next_broadcast
  poll_next_no_echo c s buf p e = elim (handle_peers c s p) [
    | inl nothing ↦ ground arith
    | inr (bytes, sent, own) ↦
        let c' = (handle_flashblocks_payload_v1 encode now c s p).conn in
        let m = PeerMsg.flashblocks_payload_v1 p.payload_id p.index bytes in
        ground (arith, forwards_own c' m own)
  ]
