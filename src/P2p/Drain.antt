-- ===== src/P2p/Drain.antt =====
-- The loop that emits: what it leaves alone, what it emits, and where it stops.
use rblib_world_chain.Prelude.{
  ℕ, zero, suc, ◌+◌, ◌≤◌, ◌≡◌, refl, none, some, length, arith, Option-cases, inl, inr,
}
use native.Mathlib.Decide.{dec_lt}
use rblib_world_chain.Primitives.Data.{Payload}
use rblib_world_chain.P2p.{P2pState, slot, drain}
use rblib_world_chain.P2p.Slots.{slot_beyond}
use rblib_world_chain.P2p.Invariant.{IsOrdered, InOrder}

abbrev advance : ℕ → P2pState → P2pState
advance now s = record s { flashblock_timestamp = now; flashblock_index = s.flashblock_index + 1 }

advance-IsOrdered :
    (now : ℕ) (s : P2pState) (p : Payload)
    → IsOrdered s
    → slot s.flashblocks s.flashblock_index ≡ some p
    → IsOrdered (advance now s)
advance-IsOrdered now s p v e = record {
  held = v.held;
  emitted = λ i h. elim (dec_lt i s.flashblock_index) [
    | yes lt ↦ v.emitted i lt
    | no ge ↦ λ q. let same : i ≡ s.flashblock_index = omega arith in cc
  ];
  bounded = v.bounded;
}

-- The loop moves the index by the number of flashblocks emitted, and changes no slot.
pub drain_frame :
    (fuel now : ℕ) (s : P2pState)
    → let (t, stream) = drain fuel now s in
      (t.flashblocks ≡ s.flashblocks)
      × (t.payload_id ≡ s.payload_id)
      × (t.flashblock_index ≡ s.flashblock_index + length stream)
unfolding drain
drain_frame zero now s = (refl, refl, omega arith)
drain_frame (suc fuel) now s = ground (arith, drain_frame fuel now (advance now s))

-- What it emits is in order from the current index on, and of the current payload.
pub drain-InOrder :
    (fuel now : ℕ) (s : P2pState)
    → IsOrdered s
    → InOrder s.flashblock_index s.payload_id (drain fuel now s).1
unfolding drain
drain-InOrder zero now s v = tt
drain-InOrder (suc fuel) now s v = elim (Option-cases (slot s.flashblocks s.flashblock_index)) [
  | inl e ↦ rw (e, drain) tt
  | inr (p, e) ↦
      rw (e, drain)
        (
          (v.held _ p e).0,
          (v.held _ p e).1,
          drain-InOrder fuel now (advance now s) (advance-IsOrdered now s p v e),
        )
]

-- With fuel for the part of the buffer from the current index on, as publish gives it, the loop that
-- emits ends at an empty slot, not for want of fuel.
pub drain_stops :
    (fuel now : ℕ) (s : P2pState)
    → length s.flashblocks ≤ s.flashblock_index + fuel
    → let t = (drain fuel now s).0 in slot t.flashblocks t.flashblock_index ≡ none
unfolding drain
drain_stops zero now s h = slot_beyond s.flashblocks s.flashblock_index (omega arith)
drain_stops (suc fuel) now s h = ground (arith, drain_stops fuel now (advance now s))

pub drain-IsOrdered : (fuel now : ℕ) (s : P2pState) → IsOrdered s → IsOrdered (drain fuel now s).0
unfolding drain
drain-IsOrdered zero now s v = v
drain-IsOrdered (suc fuel) now s v = elim (Option-cases (slot s.flashblocks s.flashblock_index)) [
  | inl e ↦ rw (e, drain) v
  | inr (p, e) ↦
      rw (e, drain) (drain-IsOrdered fuel now (advance now s) (advance-IsOrdered now s p v e))
]
