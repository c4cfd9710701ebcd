-- ===== src/Connection/Handle.antt =====
-- What the handler of a received flashblock does on each branch.
use rblib_world_chain.Prelude.{
  ℕ, ◌+◌, ◌≤◌, ◌<◌, ◌≡◌, ◌∙◌, ◌⊎◌, true, false, [], ◌∷◌, inl, inr, arith,
}
use rblib_world_chain.Primitives.Data.{Payload, Bytes}
use rblib_world_chain.P2p.{P2pMsg, P2pState, no_output, publish, max_flashblock_index}
use rblib_world_chain.Connection.{
  Connection, ReputationChangeKind, has_received, start_payload, resize, accept,
  handle_flashblocks_payload_v1,
}
use rblib_world_chain.Connection.Received.{
  has_received-fill, has_received-resize, has_received-set, length-resize-ge,
}

-- The peer has sent the flashblock `p` before, for the payload that it sends now.
abbrev pub Seen : Connection → Payload → Type 0
Seen c p = (c.payload_id ≡ p.payload_id) × (has_received c.received p.index ≡ true)

pub handled_before : (c : Connection) (p : Payload) → Seen c p ⊎ (¬ Seen c p)
handled_before c p = grind arith

start_payload_id : (c : Connection) (p : Payload) → (start_payload c p).payload_id ≡ p.payload_id
unfolding start_payload
start_payload_id c p = ground arith

start_payload_fresh :
    (c : Connection) (p : Payload)
    → ¬ Seen c p
    → has_received (start_payload c p).received p.index ≡ false
unfolding start_payload
start_payload_fresh c p fresh = ground (arith, has_received-fill c.received p.index)

start_payload-Seen : (c : Connection) (p : Payload) → Seen c p → start_payload c p ≡ c
unfolding start_payload
start_payload-Seen c p seen = ground arith

module _ (encode : P2pMsg → Bytes) (now : ℕ) where
  accept_new :
      (c : Connection) (s : P2pState) (p : Payload)
      → p.index ≤ max_flashblock_index
      → has_received c.received p.index ≡ false
      → let e = accept encode now c s p in
        ((e.state, e.outbox) ≡ publish encode now s p)
        × (e.reports ≡ [])
        × (e.conn.payload_id ≡ c.payload_id)
        × (has_received e.conn.received p.index ≡ true)
  unfolding accept
  accept_new c s p le fresh =
      let grown = resize c.received (p.index + 1) in
      let room = length-resize-ge c.received (p.index + 1) in
      let same = has_received-resize c.received (p.index + 1) p.index in
      let mark = has_received-set grown p.index p.index (omega arith) in ground (arith, same, mark)

  -- A flashblock with an index within the bound that the peer has not sent yet goes to publish, is
  -- remembered as sent by the peer, and is not reported.
  pub handle_new :
      (c : Connection) (s : P2pState) (p : Payload)
      → p.index ≤ max_flashblock_index
      → ¬ Seen c p
      → let e = handle_flashblocks_payload_v1 encode now c s p in
        ((e.state, e.outbox) ≡ publish encode now s p) × (e.reports ≡ []) × Seen e.conn p
  unfolding handle_flashblocks_payload_v1
  handle_new c s p le fresh =
      let r = accept_new (start_payload c p) s p le (start_payload_fresh c p fresh) in
      (r.0, r.1, (r.2 ∙ start_payload_id c p, r.3))

  -- One that the peer has sent already is reported, and changes no state.
  pub handle-Seen :
      (c : Connection) (s : P2pState) (p : Payload)
      → p.index ≤ max_flashblock_index
      → Seen c p
      → let e = handle_flashblocks_payload_v1 encode now c s p in
        (e.state ≡ s)
        × (e.outbox ≡ no_output)
        × (e.reports ≡ ReputationChangeKind.already_seen_transaction ∷ [])
  unfolding handle_flashblocks_payload_v1 accept
  handle-Seen c s p le seen =
      rw (start_payload-Seen c p seen)
        (ground (arith, has_received-resize c.received (p.index + 1) p.index))

  handled_again :
      (c : Connection) (s : P2pState) (p : Payload)
      → p.index ≤ max_flashblock_index
      → Seen c p
      → Seen (handle_flashblocks_payload_v1 encode now c s p).conn p
  unfolding handle_flashblocks_payload_v1 accept
  handled_again c s p le seen =
      rw (start_payload-Seen c p seen)
        (ground (arith, has_received-resize c.received (p.index + 1) p.index))

  pub handled_Seen :
      (c : Connection) (s : P2pState) (p : Payload)
      → p.index ≤ max_flashblock_index
      → Seen (handle_flashblocks_payload_v1 encode now c s p).conn p
  handled_Seen c s p le = elim (handled_before c p) [
    | inl seen ↦ handled_again c s p le seen
    | inr fresh ↦ (handle_new c s p le fresh).2
  ]

  -- A flashblock with an index within the bound that comes twice in a row from a peer is reported
  -- the second time, and then leaves the shared state and both channels alone.
  pub handle_twice :
      (c : Connection) (s : P2pState) (p : Payload)
      → p.index ≤ max_flashblock_index
      → let e = handle_flashblocks_payload_v1 encode now c s p in
        let again = handle_flashblocks_payload_v1 encode now e.conn e.state p in
        (again.state ≡ e.state)
        × (again.outbox ≡ no_output)
        × (again.reports ≡ ReputationChangeKind.already_seen_transaction ∷ [])
  handle_twice c s p le =
      let e = handle_flashblocks_payload_v1 encode now c s p in
      handle-Seen e.conn e.state p le (handled_Seen c s p le)

  -- One beyond the index bound has no effect outside the connection.
  pub handle_beyond :
      (c : Connection) (s : P2pState) (p : Payload)
      → max_flashblock_index < p.index
      → let e = handle_flashblocks_payload_v1 encode now c s p in
        (e.state ≡ s) × (e.outbox ≡ no_output) × (e.reports ≡ [])
  unfolding handle_flashblocks_payload_v1 accept
  handle_beyond c s p h = ground arith
