-- ===== src/P2p/Prompt.antt =====
-- A flashblock that is the next to emit, with none behind it, is emitted by its own call.
use rblib_world_chain.Prelude.{
  ℕ, ◌+◌, ◌≤◌, ◌<◌, ◌≡◌, refl, sym, ap, ◌∙◌, Option, none, some, [], ◌∷◌, length, arith,
}
use native.Mathlib.Decide.{dec_lt}
use rblib_world_chain.Primitives.Data.{Payload, Bytes}
use rblib_world_chain.P2p.{P2pState, P2pMsg, slot, admit, max_flashblock_index}
use rblib_world_chain.P2p.Invariant.{IsOrdered}
use rblib_world_chain.P2p.Publish.{admit-Emits}
use rblib_world_chain.P2p.Delivery.{Fits, IsQuiet, admit-Delivers}
use rblib_world_chain.P2p.Promise.{arrival, or_else, reads}
use rblib_world_chain.P2p.Refinement.{admit-Stores}

-- The state waits for exactly this flashblock: it is of the current payload, and the next to emit, and
-- no slot from its index on is taken.
pub record Awaits (s : P2pState) (p : Payload) : Type 0 where
  pub ordered : IsOrdered s
  pub same_id : p.payload_id ≡ s.payload_id
  pub is_next : s.flashblock_index ≡ p.index
  pub free : (i : ℕ) → p.index ≤ i → slot s.flashblocks i ≡ none

reads_one :
    (n i : ℕ) (held : ℕ → Option Payload) (p : Payload)
    → n ≡ 1
    → held i ≡ some p
    → reads n i held ≡ p ∷ []
reads_one n i held p one h = rw (one, h) refl

module _ (encode : P2pMsg → Bytes) (now : ℕ) where
  pub admit_awaited :
      (s : P2pState) (p : Payload)
      → Awaits s p
      → Fits encode now p
      → p.index ≤ max_flashblock_index
      → let (t, out) = admit encode now s p in
        (out.stream ≡ p ∷ []) × (t.flashblock_index ≡ p.index + 1)
  admit_awaited s p a fit le =
      let (t, out) = admit encode now s p in
      let quiet : IsQuiet s = a.free s.flashblock_index (omega (arith, a.is_next)) in
      let (slots, moved, stream) = admit-Stores encode now s p fit in
      let (ordered, _, _, _) = admit-Emits encode now s p a.ordered a.same_id in
      let stopped = (admit-Delivers encode now s p quiet fit).0 in
      let here : slot t.flashblocks p.index ≡ some p =
        slots p.index
        ∙ ap (λ o. or_else o (arrival p p.index)) (a.free p.index (omega arith))
        ∙ ground arith in
      let after : slot t.flashblocks (p.index + 1) ≡ none =
        slots (p.index + 1)
        ∙ ap (λ o. or_else o (arrival p (p.index + 1))) (a.free (p.index + 1) (omega arith))
        ∙ ground arith in
      let past : p.index < t.flashblock_index = elim (dec_lt p.index t.flashblock_index) [
        | yes lt ↦ lt
        | no ge ↦
            let same : t.flashblock_index ≡ p.index = omega (arith, moved, a.is_next) in
            absurd (cc (sym here ∙ ap (slot t.flashblocks) (sym same) ∙ stopped))
      ] in
      let not_beyond : t.flashblock_index ≤ p.index + 1 =
        elim (dec_lt (p.index + 1) t.flashblock_index) [
          | yes lt ↦ absurd (ordered.emitted (p.index + 1) lt after)
          | no ge ↦ omega arith
        ] in
      let index : t.flashblock_index ≡ p.index + 1 = omega arith in
      (
        stream
            ∙ reads_one (length out.stream) s.flashblock_index (slot t.flashblocks) p
                (omega (arith, moved, a.is_next, index)) (ap (slot t.flashblocks) a.is_next ∙ here),
        index,
      )
