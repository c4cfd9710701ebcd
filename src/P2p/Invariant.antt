-- ===== src/P2p/Invariant.antt =====
-- The invariant of the protocol state, and the order of a stream of flashblocks.
use rblib_world_chain.Prelude.{
  ℕ, ◌+◌, ◌≤◌, ◌<◌, ◌≡◌, ◌≢◌, none, some, List, [], ◌∷◌, ◌++◌, length, arith,
}
use rblib_world_chain.Primitives.Data.{Payload}
use rblib_world_chain.P2p.{P2pState, slot, max_flashblock_index, default_state}

pub record IsOrdered (s : P2pState) : Type 0 where
  -- a slot holds the flashblock of its index, of the current payload
  pub held :
      (i : ℕ) (p : Payload)
      → slot s.flashblocks i ≡ some p
      → (p.index ≡ i) × (p.payload_id ≡ s.payload_id)
  -- what has been emitted is still held
  pub emitted : (i : ℕ) → i < s.flashblock_index → slot s.flashblocks i ≢ none
  pub bounded : length s.flashblocks ≤ max_flashblock_index + 1

-- The flashblocks of payload `id` with the indices `i`, `i + 1`, and so on.
abbrev pub InOrder : ℕ → ℕ → List Payload → Type 0
InOrder i id [] = Unit {0}
InOrder i id (p ∷ ps) = (p.index ≡ i) × (p.payload_id ≡ id) × InOrder (i + 1) id ps

pub InOrder-append :
    (i j id : ℕ) (ps qs : List Payload)
    → InOrder i id ps
    → j ≡ i + length ps
    → InOrder j id qs
    → InOrder i id (ps ++ qs)
InOrder-append i j id [] qs h e k = rw (← i_eq) k
  where
    i_eq : j ≡ i
    i_eq = omega arith
InOrder-append i j id (p ∷ ps) qs h e k =
    (h.0, h.1, InOrder-append (i + 1) j id ps qs h.2 (omega arith) k)

pub default_state-IsOrdered : IsOrdered default_state
unfolding slot
default_state-IsOrdered = record {
  held = λ i p h. cc;
  emitted = λ i h. absurd (omega arith);
  bounded = omega arith;
}
