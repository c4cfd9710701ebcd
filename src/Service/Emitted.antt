-- ===== src/Service/Emitted.antt =====
-- What a call of `publish` can leave in the slots, and where what it emits stands.
use rblib_world_chain.Prelude.{
  ℕ, zero, suc, ◌+◌, ◌<◌, ◌≡◌, ◌⊎◌, inl, inr, refl, sym, ◌∙◌, All, Option, none, some, List, length,
  false, arith, ltb, Option-cases, Bool-cases, ◌==◌,
}
use mathlib.Core.Path.{subst}
use rblib_world_chain.Primitives.Data.{Payload, Bytes}
use rblib_world_chain.P2p.{
  P2pState, P2pMsg, Outbox, slot, start_payload, resize, drain, cache, admit, publish,
  max_flashblock_index, max_frame,
}
use rblib_world_chain.P2p.Slots.{slot-fill, slot-resize, slot-set, length-resize-ge}
use rblib_world_chain.P2p.Drain.{drain_frame}
use rblib_world_chain.P2p.Publish.{put}

-- The flashblock stands in a slot of the buffer.
abbrev pub Stands : List (Option Payload) → Payload → Type 0
Stands slots q = (i : ℕ) × (slot slots i ≡ some q)

drain-Stands : (fuel now : ℕ) (s : P2pState) → All (Stands s.flashblocks) (drain fuel now s).1
unfolding drain
drain-Stands zero now s = tt
drain-Stands (suc fuel) now s = elim (Option-cases (slot s.flashblocks s.flashblock_index)) [
  | inl missing ↦ rw (missing, drain) tt
  | inr (p, there) ↦
      rw (there, drain)
        (
          (s.flashblock_index, there),
          drain-Stands fuel now
              (record s { flashblock_timestamp = now; flashblock_index = s.flashblock_index + 1 }),
        )
]

-- What stands in a slot afterwards is the new flashblock, or stood there before.
abbrev pub From : P2pState → Payload → P2pState → Type 0
From s p t =
    (i : ℕ) (q : Payload)
    → slot t.flashblocks i ≡ some q
    → (q ≡ p) ⊎ (slot s.flashblocks i ≡ some q)

-- The slots afterwards, and that all that is emitted stands in one of them.
abbrev pub Adds : P2pState → Payload → P2pState × Outbox → Type 0
Adds s p (t, out) = From s p t × All (Stands t.flashblocks) out.stream

put-From : (s : P2pState) (p : Payload) → p.index < length s.flashblocks → From s p (put s p)
put-From s p h i q e = ground (arith, slot-set s.flashblocks p.index i (some p) h)

module _ (encode : P2pMsg → Bytes) (now : ℕ) where
  cache-Adds :
      (s : P2pState) (p : Payload)
      → p.index < length s.flashblocks
      → Adds s p (cache encode now s p)
  unfolding cache
  cache-Adds s p h =
      let fuel = length (put s p).flashblocks in
      let frame = drain_frame fuel now (put s p) in
      let emitted = drain-Stands fuel now (put s p) in
      elim (Bool-cases (ltb max_frame (length (encode (P2pMsg.flashblocks_payload_v1 p))))) [
        | inl large ↦ rw (large, cache) (put-From s p h, tt)
        | inr fits ↦
            rw (fits, cache)
              (
                rw frame.0 (put-From s p h),
                subst (λ slots. All (Stands slots) (drain fuel now (put s p)).1) (sym frame.0)
                    emitted,
              )
      ]

  admit-Adds : (s : P2pState) (p : Payload) → Adds s p (admit encode now s p)
  unfolding admit
  admit-Adds s p = elim (Bool-cases (ltb max_flashblock_index p.index)) [
    | inl beyond ↦ rw (beyond, admit) (λ i q e. inr e, tt)
    | inr within ↦
        let grown = record s { flashblocks = resize s.flashblocks (p.index + 1) } in
        let room = length-resize-ge s.flashblocks (p.index + 1) in
        let same = slot-resize s.flashblocks (p.index + 1) in
        elim (Option-cases (slot grown.flashblocks p.index)) [
          | inl free ↦
              let added = cache-Adds grown p (omega arith) in
              rw (within, free, admit)
                (
                  λ i q e. elim (added.0 i q e) [
                    | inl new ↦ inl new
                    | inr old ↦ inr (sym (same i) ∙ old)
                  ],
                  added.1,
                )
          | inr (r, held) ↦ rw (within, held, admit) (λ i q e. inr (sym (same i) ∙ e), tt)
        ]
  ]

  pub publish-Adds :
      (s : P2pState) (p : Payload) → Adds (start_payload s p) p (publish encode now s p)
  unfolding publish
  publish-Adds s p = admit-Adds (start_payload s p) p

-- A flashblock of another payload clears the slots.
pub start_payload_clears :
    (s : P2pState) (p : Payload) (i : ℕ)
    → (p.payload_id == s.payload_id) ≡ false
    → slot (start_payload s p).flashblocks i ≡ none
unfolding start_payload
start_payload_clears s p i other = rw (other, start_payload) (slot-fill s.flashblocks i)

pub start_payload_restarts :
    (s : P2pState) (p : Payload)
    → (p.payload_id == s.payload_id) ≡ false
    → (start_payload s p).flashblock_index ≡ 0
unfolding start_payload
start_payload_restarts s p other = rw (other, start_payload) refl
