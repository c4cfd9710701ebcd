-- ===== src/P2p/Delivery.antt =====
-- Every flashblock that has arrived, with all before it, is emitted.
use rblib_world_chain.Prelude.{
  false, ℕ, ◌+◌, ◌≤◌, ◌<◌, ◌≡◌, ◌≢◌, ◌⊎◌, All, none, some, List, [], ◌∷◌, length, arith,
  Option-cases, Bool-cases, inl, inr, ltb,
}
use mathlib.Core.Path.{subst}
use native.Mathlib.Decide.{dec_lt}
use rblib_world_chain.Primitives.Data.{Payload, Bytes}
use rblib_world_chain.P2p.{
  P2pState, P2pMsg, slot, resize, cache, admit, publish, publish_all, max_flashblock_index,
  max_frame,
}
use rblib_world_chain.P2p.Slots.{slot-resize, slot-set, length-resize-ge}
use rblib_world_chain.P2p.Invariant.{IsOrdered, InOrder}
use rblib_world_chain.P2p.Drain.{drain_frame, drain_stops}
use rblib_world_chain.P2p.Publish.{publish_same, publish_all-Emits, put, start_payload_same}

-- The next flashblock to emit has not arrived.
abbrev pub IsQuiet : P2pState → Type 0
IsQuiet s = slot s.flashblocks s.flashblock_index ≡ none

abbrev pub Holds : P2pState → ℕ → Type 0
Holds s i = slot s.flashblocks i ≢ none

-- The flashblock of index `i` is among the calls.
abbrev pub Arrives : ℕ → List Payload → Type 0
Arrives i [] = ⊥
Arrives i (p ∷ ps) = (p.index ≡ i) ⊎ Arrives i ps

module _ (encode : P2pMsg → Bytes) (now : ℕ) where
  abbrev pub Fits : Payload → Type 0
  Fits p = length (encode (P2pMsg.flashblocks_payload_v1 p)) ≤ max_frame

  -- What one call with a flashblock of the current payload that fits a frame leaves.
  abbrev pub Delivers : P2pState → Payload → P2pState → Type 0
  Delivers s p t =
      IsQuiet t
      × ((i : ℕ) → Holds s i → Holds t i)
      × (p.index ≤ max_flashblock_index → Holds t p.index)

  cache-Delivers :
      (s : P2pState) (p : Payload)
      → p.index < length s.flashblocks
      → Fits p
      → Delivers s p (cache encode now s p).0
  unfolding cache
  cache-Delivers s p h fit =
      let slots = (put s p).flashblocks in
      let frame = drain_frame (length slots) now (put s p) in
      let stop = drain_stops (length slots) now (put s p) (omega arith) in
      let small : ltb max_frame (length (encode (P2pMsg.flashblocks_payload_v1 p))) ≡ false =
        ground arith in
      rw (small, cache)
        (
          stop,
          λ i held. rw frame.0 (ground (arith, slot-set s.flashblocks p.index i (some p) h)),
          λ le. rw frame.0 (ground (arith, slot-set s.flashblocks p.index p.index (some p) h)),
        )

  pub admit-Delivers :
      (s : P2pState) (p : Payload) → IsQuiet s → Fits p → Delivers s p (admit encode now s p).0
  unfolding admit
  admit-Delivers s p q fit = elim (Bool-cases (ltb max_flashblock_index p.index)) [
    | inl beyond ↦ rw (beyond, admit) (q, λ i h. h, λ le. absurd (ground arith))
    | inr within ↦
        let grown = record s { flashblocks = resize s.flashblocks (p.index + 1) } in
        let room = length-resize-ge s.flashblocks (p.index + 1) in
        let same = slot-resize s.flashblocks (p.index + 1) in
        elim (Option-cases (slot grown.flashblocks p.index)) [
          | inl free ↦
              let d = cache-Delivers grown p (omega arith) fit in
              rw (within, free, admit) (d.0, λ i h. d.1 i (rw (same i) h), d.2)
          | inr (r, held) ↦
              rw (within, held, admit)
                (rw (same s.flashblock_index) q, λ i h. rw (same i) h, λ le. rw held (λ e. cc))
        ]
  ]

  publish-Delivers :
      (s : P2pState) (p : Payload)
      → p.payload_id ≡ s.payload_id
      → IsQuiet s
      → Fits p
      → Delivers s p (publish encode now s p).0
  unfolding publish
  publish-Delivers s p id q fit = rw (start_payload_same s p id) (admit-Delivers s p q fit)

  -- After calls for the current payload that all fit, the state is quiet again, and holds what it
  -- held and what arrived.
  pub publish_all-Delivers :
      (s : P2pState) (ps : List Payload)
      → IsOrdered s
      → IsQuiet s
      → All (λ p. p.payload_id ≡ s.payload_id) ps
      → All Fits ps
      → let t = (publish_all encode now s ps).0 in
        IsQuiet t
        × ((i : ℕ) → Holds s i → Holds t i)
        × ((i : ℕ) → i ≤ max_flashblock_index → Arrives i ps → Holds t i)
  unfolding publish_all
  publish_all-Delivers s [] v q ids fits = (q, λ i h. h, λ i le a. absurd a)
  publish_all-Delivers s (p ∷ ps) v q ids fits =
      let t = (publish encode now s p).0 in
      let one = publish_same encode now s p v ids.0 in
      let d = publish-Delivers s p ids.0 q fits.0 in
      let rest = publish_all-Delivers t ps one.0 d.0 (rw one.1 ids.1) fits.1 in
      (
        rest.0,
        λ i h. rest.1 i (d.1 i h),
        λ i le a. elim a [
          | inl e ↦ rest.1 i (subst (λ k. Holds t k) e (d.2 (omega arith)))
          | inr later ↦ rest.2 i le later
        ],
      )

  -- In a quiet state that holds the first `n` flashblocks, they have all been emitted.
  quiet_past :
      (s : P2pState) (n : ℕ) → IsQuiet s → ((i : ℕ) → i < n → Holds s i) → n ≤ s.flashblock_index
  quiet_past s n q all = elim (dec_lt s.flashblock_index n) [
    | yes lt ↦ absurd (all s.flashblock_index lt q)
    | no ge ↦ omega arith
  ]

  -- From an ordered state at the start of a payload whose first flashblock has not arrived: if all
  -- calls of publish are for that payload and fit a frame, and every index below n (at most 101) is
  -- among them, in whatever order and with repetitions, at least n flashblocks are emitted, all of
  -- that payload, with the indices 0, 1, 2, ... in order.
  pub publish_all_delivers :
      (s : P2pState) (ps : List Payload) (n : ℕ)
      → IsOrdered s
      → IsQuiet s
      → s.flashblock_index ≡ 0
      → All (λ p. p.payload_id ≡ s.payload_id) ps
      → All Fits ps
      → n ≤ max_flashblock_index + 1
      → ((i : ℕ) → i < n → Arrives i ps)
      → let stream = (publish_all encode now s ps).1.stream in
        InOrder 0 s.payload_id stream × (n ≤ length stream)
  publish_all_delivers s ps n v q zero_index ids fits le arrives =
      let e = publish_all-Emits encode now s ps v ids in
      let d = publish_all-Delivers s ps v q ids fits in
      let past =
        quiet_past (publish_all encode now s ps).0 n d.0
          (λ i lt. d.2 i (omega arith) (arrives i lt)) in
      (
        subst (λ k. InOrder k s.payload_id (publish_all encode now s ps).1.stream) zero_index e.2,
        omega (arith, e.3, past),
      )
