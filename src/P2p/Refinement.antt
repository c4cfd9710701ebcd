-- ===== src/P2p/Refinement.antt =====
-- The buffer of the protocol state keeps the promise.
use rblib_world_chain.Prelude.{
  ℕ, ◌+◌, ◌≤◌, ◌<◌, ◌≡◌, refl, sym, ap, ap₂, ◌∙◌, All, Option, none, some, List, [], ◌∷◌, ◌++◌,
  length, arith, Option-cases, Bool-cases, inl, inr, ltb, ◌==◌, if◌then◌else◌, append_assoc,
  append-nil, false,
}
use native.Mathlib.Decide.{dec_lt, ℕ_discrete}
use rblib_world_chain.Primitives.Data.{Payload, Bytes}
use rblib_world_chain.P2p.{
  P2pState, P2pMsg, Outbox, slot, resize, cache, admit, publish, publish_all, max_flashblock_index,
  max_frame,
}
use rblib_world_chain.P2p.Slots.{slot-resize, slot-set, length-resize-ge, slot_beyond}
use rblib_world_chain.P2p.Invariant.{IsOrdered}
use rblib_world_chain.P2p.Drain.{drain_frame}
use rblib_world_chain.P2p.Delivery.{Holds, Fits, publish_all-Delivers}
use rblib_world_chain.P2p.Publish.{publish_same, publish_all-Emits, put, start_payload_same}
use rblib_world_chain.P2p.Promise.{
  arrival, or_else, first_of, promised, reads, reads_congr, consecutive_congr, reads-append,
  consecutive-reads, drain-reads,
}

or_else_assoc : (a b c : Option Payload) → or_else (or_else a b) c ≡ or_else a (or_else b c)
or_else_assoc none b c = refl
or_else_assoc (some p) b c = refl

or_else-none : (o : Option Payload) → or_else o none ≡ o
or_else-none none = refl
or_else-none (some p) = refl

-- A call beyond the bound, or for a slot that is taken, adds nothing.
arrival_beyond :
    (o : Option Payload) (p : Payload) (i : ℕ)
    → max_flashblock_index < p.index
    → or_else o (arrival p i) ≡ o
arrival_beyond o p i h =
    let nothing : arrival p i ≡ none = ground arith in ap (or_else o) nothing ∙ or_else-none o

arrival_taken :
    (os : List (Option Payload)) (p r : Payload) (i : ℕ)
    → slot os p.index ≡ some r
    → or_else (slot os i) (arrival p i) ≡ slot os i
arrival_taken os p r i h = elim (ℕ_discrete p.index i) [
  | yes same ↦ let taken : slot os i ≡ some r = ap (slot os) (sym same) ∙ h in rw taken refl
  | no other ↦
      let nothing : arrival p i ≡ none = ground arith in
      ap (or_else (slot os i)) nothing ∙ or_else-none (slot os i)
]

arrival_free :
    (os : List (Option Payload)) (p : Payload) (i : ℕ)
    → p.index ≤ max_flashblock_index
    → slot os p.index ≡ none
    → (if p.index == i then some p else slot os i) ≡ or_else (slot os i) (arrival p i)
arrival_free os p i le free = elim (ℕ_discrete p.index i) [
  | yes same ↦ let nothing : slot os i ≡ none = ap (slot os) (sym same) ∙ free in ground arith
  | no other ↦
      let nothing : arrival p i ≡ none = ground arith in
      let test : (p.index == i) ≡ false = ground arith in
      ap (λ b. if b then some p else slot os i) test
      ∙ sym (ap (or_else (slot os i)) nothing ∙ or_else-none (slot os i))
]

index_bounded : (s : P2pState) → IsOrdered s → s.flashblock_index ≤ max_flashblock_index + 1
index_bounded s v = elim (dec_lt (max_flashblock_index + 1) s.flashblock_index) [
  | yes beyond ↦ absurd (
      v.emitted (max_flashblock_index + 1) beyond
        (slot_beyond s.flashblocks (max_flashblock_index + 1) v.bounded))
  | no within ↦ omega arith
]

module _ (encode : P2pMsg → Bytes) (now : ℕ) where
  -- What one call with a flashblock of the current payload that fits a frame does to the slots, and
  -- what it emits: what it moves the index over.
  abbrev pub Stores : P2pState → Payload → P2pState × Outbox → Type 0
  Stores s p (t, out) =
      ((i : ℕ) → slot t.flashblocks i ≡ or_else (slot s.flashblocks i) (arrival p i))
      × (t.flashblock_index ≡ s.flashblock_index + length out.stream)
      × (out.stream ≡ reads (length out.stream) s.flashblock_index (slot t.flashblocks))

  cache-Stores :
      (s : P2pState) (p : Payload)
      → p.index < length s.flashblocks
      → p.index ≤ max_flashblock_index
      → slot s.flashblocks p.index ≡ none
      → Fits encode now p
      → Stores s p (cache encode now s p)
  unfolding cache
  cache-Stores s p h le free fit =
      let slots = (put s p).flashblocks in
      let frame = drain_frame (length slots) now (put s p) in
      let small : ltb max_frame (length (encode (P2pMsg.flashblocks_payload_v1 p))) ≡ false =
        ground arith in
      rw (small, cache)
        (
          λ i. rw frame.0 (
              slot-set s.flashblocks p.index i (some p) h ∙ arrival_free s.flashblocks p i le free),
          frame.2,
          rw frame.0 (drain-reads (length slots) now (put s p)),
        )

  pub admit-Stores :
      (s : P2pState) (p : Payload) → Fits encode now p → Stores s p (admit encode now s p)
  unfolding admit
  admit-Stores s p fit = elim (Bool-cases (ltb max_flashblock_index p.index)) [
    | inl beyond ↦
        rw (beyond, admit)
          (λ i. sym (arrival_beyond (slot s.flashblocks i) p i (ground arith)), omega arith, refl)
    | inr within ↦
        let grown = record s { flashblocks = resize s.flashblocks (p.index + 1) } in
        let room = length-resize-ge s.flashblocks (p.index + 1) in
        let same = slot-resize s.flashblocks (p.index + 1) in
        elim (Option-cases (slot grown.flashblocks p.index)) [
          | inl free ↦
              let d = cache-Stores grown p (omega arith) (ground arith) free fit in
              rw (within, free, admit)
                (λ i. d.0 i ∙ ap (λ o. or_else o (arrival p i)) (same i), d.1, d.2)
          | inr (r, held) ↦
              rw (within, held, admit)
                (
                  λ i. same i ∙ sym (arrival_taken s.flashblocks p r i (sym (same p.index) ∙ held)),
                  omega arith,
                  refl,
                )
        ]
  ]

  publish-Stores :
      (s : P2pState) (p : Payload)
      → p.payload_id ≡ s.payload_id
      → Fits encode now p
      → Stores s p (publish encode now s p)
  unfolding publish
  publish-Stores s p id fit = rw (start_payload_same s p id) (admit-Stores s p fit)

  -- What is held at an index that has been passed stays.
  held_stays :
      (s : P2pState) (p : Payload) (t : P2pState) (i : ℕ)
      → Holds s i
      → slot t.flashblocks i ≡ or_else (slot s.flashblocks i) (arrival p i)
      → slot s.flashblocks i ≡ slot t.flashblocks i
  held_stays s p t i held h = elim (Option-cases (slot s.flashblocks i)) [
    | inl missing ↦ absurd (held missing)
    | inr (r, there) ↦ there ∙ sym (h ∙ ap (λ o. or_else o (arrival p i)) there)
  ]

  -- What has been emitted is what is held below the index.
  publish-reads :
      (s : P2pState) (p : Payload)
      → IsOrdered s
      → p.payload_id ≡ s.payload_id
      → Fits encode now p
      → let (t, out) = publish encode now s p in
        reads s.flashblock_index 0 (slot s.flashblocks) ++ out.stream
        ≡ reads t.flashblock_index 0 (slot t.flashblocks)
  publish-reads s p v id fit =
      let (t, out) = publish encode now s p in
      let stores = publish-Stores s p id fit in
      ap₂ ◌++◌
        (reads_congr s.flashblock_index 0 (slot s.flashblocks) (slot t.flashblocks)
          (λ j a b. held_stays s p t j (v.emitted j (omega arith)) (stores.0 j)))
        stores.2
      ∙ sym (
          reads-append s.flashblock_index (length out.stream) 0 s.flashblock_index
            (slot t.flashblocks) (omega arith))
      ∙ ap (λ n. reads n 0 (slot t.flashblocks)) (sym stores.1)

  publish_all-Stores :
      (s : P2pState) (ps : List Payload)
      → IsOrdered s
      → All (λ p. p.payload_id ≡ s.payload_id) ps
      → All (Fits encode now) ps
      → let (t, out) = publish_all encode now s ps in
        ((i : ℕ) → slot t.flashblocks i ≡ or_else (slot s.flashblocks i) (first_of ps i))
        × (reads s.flashblock_index 0 (slot s.flashblocks) ++ out.stream
            ≡ reads t.flashblock_index 0 (slot t.flashblocks))
  unfolding publish_all
  publish_all-Stores s [] v ids fits = (
    λ i. sym (or_else-none (slot s.flashblocks i)),
    append-nil (reads s.flashblock_index 0 (slot s.flashblocks)),
  )
  publish_all-Stores s (p ∷ ps) v ids fits =
      let (t, out) = publish encode now s p in
      let one = publish_same encode now s p v ids.0 in
      let stores = publish-Stores s p ids.0 fits.0 in
      let rest = publish_all-Stores t ps one.0 (rw one.1 ids.1) fits.1 in
      (
        λ i.
            rest.0 i
            ∙ ap (λ o. or_else o (first_of ps i)) (stores.0 i)
            ∙ or_else_assoc (slot s.flashblocks i) (arrival p i) (first_of ps i),
        sym (append_assoc (reads s.flashblock_index 0 (slot s.flashblocks)) out.stream _)
            ∙ ap (λ l. l ++ (publish_all encode now t ps).1.stream)
                (publish-reads s p v ids.0 fits.0)
            ∙ rest.1,
      )

  -- publish refines a specification without a buffer: from an ordered state with no flashblock of
  -- its payload, calls for that payload that fit a frame emit exactly the first flashblock of each
  -- index up to 100, in order of the indices, up to the first index that is missing; so what is
  -- emitted in all depends only on which flashblock of each index came first.
  pub publish_all-promised :
      (s : P2pState) (ps : List Payload)
      → IsOrdered s
      → s.flashblock_index ≡ 0
      → ((i : ℕ) → slot s.flashblocks i ≡ none)
      → All (λ p. p.payload_id ≡ s.payload_id) ps
      → All (Fits encode now) ps
      → (publish_all encode now s ps).1.stream ≡ promised ps
  publish_all-promised s ps v start empty ids fits =
      let (t, out) = publish_all encode now s ps in
      let stores = publish_all-Stores s ps v ids fits in
      let emits = publish_all-Emits encode now s ps v ids in
      let quiet = (publish_all-Delivers encode now s ps v (empty s.flashblock_index) ids fits).0 in
      let slots : (i : ℕ) → slot t.flashblocks i ≡ first_of ps i =
        λ i. stores.0 i ∙ ap (λ o. or_else o (first_of ps i)) (empty i) in
      let stream : out.stream ≡ reads t.flashblock_index 0 (slot t.flashblocks) =
        ap (λ n. reads n 0 (slot s.flashblocks) ++ out.stream) (sym start) ∙ stores.1 in
      stream
      ∙ sym (
          consecutive-reads t.flashblock_index (max_flashblock_index + 1) 0 (slot t.flashblocks)
            (λ j a b. emits.0.emitted j (omega arith))
            (ap (slot t.flashblocks) (omega arith) ∙ quiet) (index_bounded t emits.0))
      ∙ consecutive_congr (max_flashblock_index + 1) 0 (slot t.flashblocks) (first_of ps) slots
