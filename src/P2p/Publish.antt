-- ===== src/P2p/Publish.antt =====
-- `publish` keeps the invariant, and emits in order.
use rblib_world_chain.Prelude.{
  ℕ, ◌+◌, ◌≤◌, ◌<◌, ◌≡◌, ◌⊎◌, All, sym, refl, ◌∙◌, none, some, List, [], ◌∷◌, length, set, arith,
  Option-cases, Bool-cases, inl, inr, ltb, ◌==◌, length-fill, length-set, length-append,
}
use rblib_world_chain.Primitives.Data.{Payload, Bytes}
use rblib_world_chain.P2p.{
  P2pState, P2pMsg, PeerMsg, Outbox, slot, start_payload, resize, cache, admit, publish,
  publish_all, max_flashblock_index, max_frame,
}
use rblib_world_chain.P2p.Slots.{
  slot-fill, slot-resize, slot-set, length-resize-ge, length-resize-le,
}
use rblib_world_chain.P2p.Invariant.{IsOrdered, InOrder, InOrder-append}
use rblib_world_chain.P2p.Drain.{drain_frame, drain-InOrder, drain-IsOrdered}

pub start_payload-IsOrdered :
    (s : P2pState) (p : Payload) → IsOrdered s → IsOrdered (start_payload s p)
unfolding start_payload
start_payload-IsOrdered s p v = elim (Bool-cases (p.payload_id == s.payload_id)) [
  | inl same ↦ rw (same, start_payload) v
  | inr other ↦
      rw (other, start_payload)
        (record {
          held = λ i q h. absurd (cc (slot-fill s.flashblocks i));
          emitted = λ i h. absurd (omega arith);
          bounded = omega (arith, v.bounded, length-fill s.flashblocks none);
        })
]

pub start_payload_same :
    (s : P2pState) (p : Payload) → p.payload_id ≡ s.payload_id → start_payload s p ≡ s
unfolding start_payload
start_payload_same s p e = ground arith

pub start_payload_id : (s : P2pState) (p : Payload) → (start_payload s p).payload_id ≡ p.payload_id
unfolding start_payload
start_payload_id s p = ground arith

abbrev grow : P2pState → ℕ → P2pState
grow s i = record s { flashblocks = resize s.flashblocks (i + 1) }

grow-IsOrdered :
    (s : P2pState) (i : ℕ) → IsOrdered s → i ≤ max_flashblock_index → IsOrdered (grow s i)
grow-IsOrdered s i v h = record {
  held = λ j q e. v.held j q (rw (slot-resize s.flashblocks (i + 1) j) at e);
  emitted = λ j k e. v.emitted j k (rw (slot-resize s.flashblocks (i + 1) j) at e);
  bounded = length-resize-le s.flashblocks (i + 1) 101 v.bounded (omega arith);
}

abbrev pub put : P2pState → Payload → P2pState
put s p = record s { flashblocks = set s.flashblocks p.index (some p) }

put-IsOrdered :
    (s : P2pState) (p : Payload)
    → IsOrdered s
    → p.payload_id ≡ s.payload_id
    → p.index < length s.flashblocks
    → IsOrdered (put s p)
put-IsOrdered s p v id h = record {
  held = λ i q e. ground (arith, slot-set s.flashblocks p.index i (some p) h, v.held i q);
  emitted = λ i k e. ground (arith, slot-set s.flashblocks p.index i (some p) h, v.emitted i k);
  bounded = omega (arith, v.bounded, length-set s.flashblocks p.index (some p));
}

-- What a step from `s` may do: keep the invariant and the payload, and emit in order from the
-- current index on, moving the index by what it emits.
abbrev pub Emits : P2pState → P2pState × Outbox → Type 0
Emits s (t, out) =
    IsOrdered t
    × (t.payload_id ≡ s.payload_id)
    × InOrder s.flashblock_index s.payload_id out.stream
    × (t.flashblock_index ≡ s.flashblock_index + length out.stream)

module _ (encode : P2pMsg → Bytes) (now : ℕ) where
  cache-Emits :
      (s : P2pState) (p : Payload)
      → IsOrdered s
      → p.payload_id ≡ s.payload_id
      → p.index < length s.flashblocks
      → Emits s (cache encode now s p)
  unfolding cache
  cache-Emits s p v id h =
      let v' = put-IsOrdered s p v id h in
      let fuel = length (put s p).flashblocks in
      let frame = drain_frame fuel now (put s p) in
      elim (Bool-cases (ltb max_frame (length (encode (P2pMsg.flashblocks_payload_v1 p))))) [
        | inl large ↦ rw (large, cache) (v', refl, tt, omega arith)
        | inr fits ↦
            rw (fits, cache)
              (
                drain-IsOrdered fuel now (put s p) v',
                frame.1,
                drain-InOrder fuel now (put s p) v',
                frame.2,
              )
      ]

  pub admit-Emits :
      (s : P2pState) (p : Payload)
      → IsOrdered s
      → p.payload_id ≡ s.payload_id
      → Emits s (admit encode now s p)
  unfolding admit
  admit-Emits s p v id = elim (Bool-cases (ltb max_flashblock_index p.index)) [
    | inl beyond ↦ rw (beyond, admit) (v, refl, tt, omega arith)
    | inr within ↦
        let v' = grow-IsOrdered s p.index v (ground arith) in
        let room = length-resize-ge s.flashblocks (p.index + 1) in
        elim (Option-cases (slot (grow s p.index).flashblocks p.index)) [
          | inl free ↦ rw (within, free, admit) (cache-Emits (grow s p.index) p v' id (omega arith))
          | inr (q, held) ↦ rw (within, held, admit) (v', refl, tt, omega arith)
        ]
  ]

  -- On an ordered state publish keeps the state ordered, leaves the flashblock's payload current,
  -- and emits only flashblocks of that payload, with consecutive indices from the next index to emit
  -- on, which is 0 if the payload is new; the index moves by what is emitted.
  pub publish-Emits :
      (s : P2pState) (p : Payload)
      → IsOrdered s
      → Emits (start_payload s p) (publish encode now s p)
  unfolding publish
  publish-Emits s p v =
      admit-Emits (start_payload s p) p (start_payload-IsOrdered s p v) (sym (start_payload_id s p))

  pub publish_same :
      (s : P2pState) (p : Payload)
      → IsOrdered s
      → p.payload_id ≡ s.payload_id
      → Emits s (publish encode now s p)
  publish_same s p v e = rw (start_payload_same s p e) at (publish-Emits s p v)

  -- From an ordered state, calls of publish with flashblocks of the current payload, in any order
  -- and with repetitions, keep the state ordered and the payload, and emit flashblocks of that
  -- payload with consecutive indices from the next index on, each once, moving the index by as many.
  pub publish_all-Emits :
      (s : P2pState) (ps : List Payload)
      → IsOrdered s
      → All (λ p. p.payload_id ≡ s.payload_id) ps
      → Emits s (publish_all encode now s ps)
  unfolding publish_all
  publish_all-Emits s [] v h = (v, refl, tt, omega arith)
  publish_all-Emits s (p ∷ ps) v h =
      let (t, out) = publish encode now s p in
      let one = publish_same s p v h.0 in
      let rest = publish_all-Emits t ps one.0 (rw one.1 h.1) in
      let later = (publish_all encode now t ps).1.stream in
      (
        rest.0,
        rest.1 ∙ one.1,
        InOrder-append s.flashblock_index t.flashblock_index s.payload_id out.stream later one.2
            one.3 (rw one.1 at rest.2),
        omega (arith, one.3, rest.3, length-append out.stream later),
      )

  -- A call broadcasts nothing to the peers, or the flashblock once.
  pub publish_peers :
      (s : P2pState) (p : Payload)
      → ((publish encode now s p).1.peers ≡ [])
        ⊎ ((publish encode now s p).1.peers
            ≡ PeerMsg.flashblocks_payload_v1 p.payload_id p.index
                (encode (P2pMsg.flashblocks_payload_v1 p))
              ∷ [])
  unfolding publish admit cache
  publish_peers s p = ground arith
