-- ===== src/Network/Stream.antt =====
-- Whatever the peers send, and however the calls interleave, the stream is made of runs.
use rblib_world_chain.Prelude.{
  ℕ, ◌+◌, ◌≡◌, refl, ◌⊎◌, inl, inr, Bool, Option, List, [], ◌∷◌, ◌++◌, map, length, arith,
  Option-cases, Bool-cases, get_elem?, ltb,
}
use rblib_world_chain.Primitives.Data.{Payload, Bytes}
use rblib_world_chain.P2p.{P2pMsg, P2pState, publish, start_payload, max_flashblock_index}
use rblib_world_chain.P2p.Invariant.{IsOrdered, InOrder}
use rblib_world_chain.P2p.Publish.{publish-Emits}
use rblib_world_chain.Connection.{
  Connection, PeerEvent, message, handle_flashblocks_payload_v1, accept, has_received, resize,
  next_broadcast, poll_next, start_payload as start_of,
}
use rblib_world_chain.Network.{
  Network, Event, connected, disconnected, received, published, polled, overrun, step, run,
  publish_new, poll_connection, into_connection,
}

-- From flashblock `i` of payload `id` next, the stream goes on with that flashblock or with the first
-- of a payload, and so on; it ends with flashblock `j` of payload `id'` next, or with a payload of
-- which nothing has been emitted.
abbrev pub Runs : (id i : ℕ) → List Payload → (id' j : ℕ) → Type 0
Runs id i [] id' j = ((id ≡ id') × (i ≡ j)) ⊎ (j ≡ 0)
Runs id i (p ∷ ps) id' j =
    (((p.payload_id ≡ id) × (p.index ≡ i)) ⊎ (p.index ≡ 0))
    × Runs p.payload_id (p.index + 1) ps id' j

Runs-append :
    (id i : ℕ) (ps : List Payload) (id' j : ℕ) (qs : List Payload) (id'' k : ℕ)
    → Runs id i ps id' j
    → Runs id' j qs id'' k
    → Runs id i (ps ++ qs) id'' k
Runs-append id i [] id' j [] id'' k h h' = ground arith
Runs-append id i [] id' j (q ∷ qs) id'' k h h' = ground arith
Runs-append id i (p ∷ ps) id' j qs id'' k h h' =
    (h.0, Runs-append p.payload_id (p.index + 1) ps id' j qs id'' k h.1 h')

InOrder-Runs :
    (id i j : ℕ) (ps : List Payload) → InOrder i id ps → j ≡ i + length ps → Runs id i ps id j
InOrder-Runs id i j [] h e = inl (refl, omega arith)
InOrder-Runs id i j (p ∷ ps) h e =
    (inl (h.1, h.0), rw (h.1, h.0) (InOrder-Runs id (i + 1) j ps h.2 (omega arith)))

-- A step from `s` to `t` that emits `ps` keeps the invariant.
abbrev pub Keeps : P2pState → P2pState → List Payload → Type 0
Keeps s t ps = IsOrdered t × Runs s.payload_id s.flashblock_index ps t.payload_id t.flashblock_index

Keeps-trans :
    (s t u : P2pState) (ps qs : List Payload) → Keeps s t ps → Keeps t u qs → Keeps s u (ps ++ qs)
Keeps-trans s t u ps qs h h' = (
  h'.0,
  Runs-append s.payload_id s.flashblock_index ps t.payload_id t.flashblock_index qs u.payload_id
      u.flashblock_index h.1 h'.1,
)

Keeps-refl : (s : P2pState) → IsOrdered s → Keeps s s []
Keeps-refl s v = (v, inl (refl, refl))

start-Runs :
    (s : P2pState) (p : Payload)
    → let t = start_payload s p in
      Runs s.payload_id s.flashblock_index [] t.payload_id t.flashblock_index
unfolding start_payload
start-Runs s p = ground arith

module _ (encode : P2pMsg → Bytes) (now : ℕ) where
  publish-Keeps :
      (s : P2pState) (p : Payload)
      → IsOrdered s
      → let (t, out) = publish encode now s p in Keeps s t out.stream
  publish-Keeps s p v =
      let st = start_payload s p in
      let (t, out) = publish encode now s p in
      let e = publish-Emits encode now s p v in
      (
        e.0,
        Runs-append s.payload_id s.flashblock_index [] st.payload_id st.flashblock_index out.stream
            t.payload_id t.flashblock_index (start-Runs s p)
            (rw e.1 (
              InOrder-Runs st.payload_id st.flashblock_index t.flashblock_index out.stream e.2
                e.3)),
      )

  accept-Keeps :
      (c : Connection) (s : P2pState) (p : Payload)
      → IsOrdered s
      → let e = accept encode now c s p in Keeps s e.state e.outbox.stream
  unfolding accept
  accept-Keeps c s p v = elim (Bool-cases (ltb max_flashblock_index p.index)) [
    | inl beyond ↦ rw (beyond, accept) (Keeps-refl s v)
    | inr within ↦ elim (Bool-cases (has_received (resize c.received (p.index + 1)) p.index)) [
      | inl seen ↦ rw (within, seen, accept) (Keeps-refl s v)
      | inr unseen ↦ rw (within, unseen, accept) (publish-Keeps s p v)
    ]
  ]

  handle-Keeps :
      (c : Connection) (s : P2pState) (p : Payload)
      → IsOrdered s
      → let e = handle_flashblocks_payload_v1 encode now c s p in Keeps s e.state e.outbox.stream
  unfolding handle_flashblocks_payload_v1
  handle-Keeps c s p v = accept-Keeps (start_of c p) s p v

module _ (decode : Bytes → Option P2pMsg) (encode : P2pMsg → Bytes) (now : ℕ) where
  poll_next-Keeps :
      (frames : List Bytes) (closed : Bool) (peer_rx : List PeerEvent) (c : Connection)
      (s : P2pState)
      → IsOrdered s
      → let e = (poll_next decode encode now frames closed peer_rx c s).effect in
        Keeps s e.state e.outbox.stream
  unfolding poll_next
  poll_next-Keeps [] closed peer_rx c s v = elim (Option-cases (next_broadcast c peer_rx).0) [
    | inl nothing ↦ rw (nothing, poll_next) (Keeps-refl s v)
    | inr (bytes, sends) ↦ rw (sends, poll_next) (Keeps-refl s v)
  ]
  poll_next-Keeps (buf ∷ frames) closed peer_rx c s v =
      elim (Option-cases (next_broadcast c peer_rx).0) [
        | inr (bytes, sends) ↦ rw (sends, poll_next) (Keeps-refl s v)
        | inl nothing ↦ elim (Option-cases (decode buf)) [
          | inl bad ↦ rw (nothing, bad, poll_next) (Keeps-refl s v)
          | inr (P2pMsg.flashblocks_payload_v1 p, good) ↦
              let e = handle_flashblocks_payload_v1 encode now c s p in
              let one = handle-Keeps encode now c s p v in
              let rx = (next_broadcast c peer_rx).1 ++ map message e.outbox.peers in
              let later = (poll_next decode encode now frames closed rx e.conn e.state).effect in
              rw (nothing, good, poll_next)
                (Keeps-trans s e.state later.state e.outbox.stream later.outbox.stream one
                  (poll_next-Keeps frames closed rx e.conn e.state one.0))
        ]
      ]

-- The shared state is ordered, and the stream so far is made of runs that end at it.
abbrev pub IsStreaming : Network → Type 0
IsStreaming n = IsOrdered n.state × Runs 0 0 n.stream n.state.payload_id n.state.flashblock_index

module _ (decode : Bytes → Option P2pMsg) (encode : P2pMsg → Bytes) where
  extends :
      (n : Network) (t : P2pState) (ps : List Payload)
      → IsStreaming n
      → Keeps n.state t ps
      → IsOrdered t × Runs 0 0 (n.stream ++ ps) t.payload_id t.flashblock_index
  extends n t ps v k = (
    k.0,
    Runs-append 0 0 n.stream n.state.payload_id n.state.flashblock_index ps t.payload_id
        t.flashblock_index v.1 k.1,
  )

  step-IsStreaming :
      (n : Network) (e : Event) → IsStreaming n → IsStreaming (step decode encode n e)
  unfolding step into_connection publish_new poll_connection
  step-IsStreaming n connected v = v
  step-IsStreaming n (disconnected i) v = v
  step-IsStreaming n (published now p) v =
      let (t, out) = publish encode now n.state p in
      extends n t out.stream v (publish-Keeps encode now n.state p v.0)
  step-IsStreaming n (received i frame) v = v
  step-IsStreaming n (polled now i closed) v = elim (Option-cases (get_elem? n.connections i)) [
    | inl absent ↦ rw (absent, poll_connection) v
    | inr (endpoint, present) ↦
        let e =
          (poll_next decode encode now endpoint.frames closed endpoint.peer_rx endpoint.conn
            n.state).effect in
        rw (present, poll_connection)
          (extends n e.state e.outbox.stream v (
            poll_next-Keeps decode encode now endpoint.frames closed endpoint.peer_rx endpoint.conn
              n.state v.0))
  ]
  step-IsStreaming n (overrun i lost) v = v

  -- Whatever calls and polls of any number of connections follow one another, if the shared state is
  -- ordered and the stream is made of runs that end at it, then so they are afterwards: a run has
  -- the indices 0, 1, 2, ... of one payload.
  pub run-IsStreaming :
      (events : List Event) (n : Network) → IsStreaming n → IsStreaming (run decode encode n events)
  unfolding run
  run-IsStreaming [] n v = v
  run-IsStreaming (e ∷ events) n v =
      run-IsStreaming events (step decode encode n e) (step-IsStreaming n e v)
