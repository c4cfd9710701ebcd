-- ===== src/P2p/Slots.antt =====
-- How the slots of the buffer change under `fill`, `resize` and `set`.
use rblib_world_chain.Prelude.{
  ℕ, zero, suc, ◌-◌, ◌≤◌, ◌<◌, ◌≡◌, refl, Option, none, some, List, [], ◌∷◌, ◌++◌, length, fill,
  set, replicate, ◌==◌, if◌then◌else◌, arith, length-append, length-replicate,
}
use rblib_world_chain.Primitives.Data.{Payload}
use rblib_world_chain.P2p.{slot, resize}

pub slot-fill : (os : List (Option Payload)) (i : ℕ) → slot (fill os none) i ≡ none
unfolding slot
slot-fill [] i = refl
slot-fill (o ∷ os) zero = refl
slot-fill (o ∷ os) (suc i) = slot-fill os i

slot-replicate : (n i : ℕ) → slot (replicate n none) i ≡ none
unfolding slot
slot-replicate zero i = refl
slot-replicate (suc n) zero = refl
slot-replicate (suc n) (suc i) = slot-replicate n i

slot-append : (os : List (Option Payload)) (n i : ℕ) → slot (os ++ replicate n none) i ≡ slot os i
unfolding slot
slot-append [] n i = slot-replicate n i
slot-append (o ∷ os) n zero = refl
slot-append (o ∷ os) n (suc i) = slot-append os n i

pub slot-resize : (os : List (Option Payload)) (n i : ℕ) → slot (resize os n) i ≡ slot os i
unfolding resize
slot-resize os n i = ground (arith, slot-append os (n - length os) i)

pub length-resize-ge : (os : List (Option Payload)) (n : ℕ) → n ≤ length (resize os n)
unfolding resize
length-resize-ge os n = ground (
  arith,
  length-append os (replicate (n - length os) none),
  length-replicate {A = Option Payload} (n - length os) none,
)

pub length-resize-le :
    (os : List (Option Payload)) (n m : ℕ) → length os ≤ m → n ≤ m → length (resize os n) ≤ m
unfolding resize
length-resize-le os n m h k = ground (
  arith,
  length-append os (replicate (n - length os) none),
  length-replicate {A = Option Payload} (n - length os) none,
)

-- A write within bounds changes one slot.
pub slot-set :
    (os : List (Option Payload)) (i j : ℕ) (p : Option Payload)
    → i < length os
    → slot (set os i p) j ≡ (if i == j then p else slot os j)
unfolding slot
slot-set [] i j p h = elim h [ ]
slot-set (o ∷ os) zero zero p h = refl
slot-set (o ∷ os) zero (suc j) p h = ground arith
slot-set (o ∷ os) (suc i) zero p h = ground arith
slot-set (o ∷ os) (suc i) (suc j) p h = ground (arith, slot-set os i j p)

-- A slot that holds something lies within the buffer.
pub slot_within :
    (os : List (Option Payload)) (i : ℕ) (p : Payload) → slot os i ≡ some p → i < length os
unfolding slot
slot_within [] i p h = cc
slot_within (o ∷ os) zero p h = omega arith
slot_within (o ∷ os) (suc i) p h = omega (arith, slot_within os i p h)

pub slot_beyond : (os : List (Option Payload)) (i : ℕ) → length os ≤ i → slot os i ≡ none
unfolding slot
slot_beyond [] i h = refl
slot_beyond (o ∷ os) zero h = absurd (omega arith)
slot_beyond (o ∷ os) (suc i) h = slot_beyond os i (omega arith)
