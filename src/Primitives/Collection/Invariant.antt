-- ===== src/Primitives/Collection/Invariant.antt =====
-- The invariant that the documentation of `Flashblocks` guarantees, and that `new` decides it.
use rblib_world_chain.Prelude.{
  ℕ, suc, ◌+◌, ◌≡◌, refl, ap, some, List, [], ◌∷◌, false, arith, length, ==_refl, ok, ◌↔◌, ◌++◌,
}
use native.Mathlib.Numerals.{add-one}
use rblib_world_chain.Primitives.Data.{Flashblock, ExecutionPayloadBaseV1, default_base}
use rblib_world_chain.Primitives.Collection.{
  Flashblocks, new, any_other_id, check_indices, default_flashblocks,
}

-- The flashblocks from position `i` on carry their positions as indices, and one payload id.
abbrev pub Contiguous : ℕ → ℕ → List Flashblock → Type 0
Contiguous i id [] = Unit {0}
Contiguous i id (fb ∷ fbs) = (fb.index ≡ i) × (fb.payload_id ≡ id) × Contiguous (suc i) id fbs

abbrev pub HasBase : Flashblock → Type 0
HasBase fb = (b : ExecutionPayloadBaseV1) × (fb.base ≡ some b)

-- Non-empty, opened by a base payload, of one payload id, with the indices 0, 1, 2, ...
abbrev pub IsValid : Flashblocks → Type 0
IsValid [] = ⊥
IsValid (fb ∷ fbs) = HasBase fb × Contiguous 0 fb.payload_id (fb ∷ fbs)

pub Contiguous-snoc :
    (i id : ℕ) (xs : List Flashblock) (fb : Flashblock)
    → Contiguous i id xs
    → fb.index ≡ i + length xs
    → fb.payload_id ≡ id
    → Contiguous i id (xs ++ (fb ∷ []))
Contiguous-snoc i id [] fb h p q = (omega arith, q, tt)
Contiguous-snoc i id (x ∷ xs) fb h p q =
    (h.0, h.1, Contiguous-snoc (suc i) id xs fb h.2 (omega arith) q)

-- `check_indices` and `any_other_id` together decide `Contiguous`.
checks-Contiguous :
    (i id : ℕ) (xs : List Flashblock)
    → any_other_id id xs ≡ false
    → check_indices i xs ≡ ok tt
    → Contiguous i id xs
unfolding any_other_id check_indices
checks-Contiguous i id [] a c = tt
checks-Contiguous i id (x ∷ xs) a c =
    ground (arith, checks-Contiguous (i + 1) id xs, ap (λ (k : ℕ). Contiguous k id xs) (add-one i))

Contiguous-any_other_id :
    (i id : ℕ) (xs : List Flashblock) → Contiguous i id xs → any_other_id id xs ≡ false
unfolding any_other_id
Contiguous-any_other_id i id [] h = refl
Contiguous-any_other_id i id (x ∷ xs) h = ground (arith, Contiguous-any_other_id (suc i) id xs h.2)

Contiguous-check_indices :
    (i id : ℕ) (xs : List Flashblock) → Contiguous i id xs → check_indices i xs ≡ ok tt
unfolding check_indices
Contiguous-check_indices i id [] h = refl
Contiguous-check_indices i id (x ∷ xs) h =
    ground (arith, Contiguous-check_indices (i + 1) id xs (rw (add-one i) h.2))

any_other_id_cons :
    (fb : Flashblock) (fbs : List Flashblock)
    → any_other_id fb.payload_id (fb ∷ fbs) ≡ any_other_id fb.payload_id fbs
unfolding any_other_id
any_other_id_cons fb fbs = ground (arith, ==_refl fb.payload_id)

-- `new` returns the vector that it was given, or an error.
pub new_same : (fs fs' : List Flashblock) → new fs ≡ ok fs' → fs' ≡ fs
unfolding new
new_same [] fs' h = cc
new_same (fb ∷ fbs) fs' h = ground arith

new-IsValid : (fs : List Flashblock) → new fs ≡ ok fs → IsValid fs
unfolding new
new-IsValid [] h = cc
new-IsValid (fb ∷ fbs) h =
    ground (arith, checks-Contiguous 0 fb.payload_id (fb ∷ fbs), any_other_id_cons fb fbs)

IsValid-new : (fs : List Flashblock) → IsValid fs → new fs ≡ ok fs
unfolding new
IsValid-new [] h = absurd h
IsValid-new (fb ∷ fbs) h = ground (
  arith,
  Contiguous-any_other_id 1 fb.payload_id fbs h.1.2,
  Contiguous-check_indices 0 fb.payload_id (fb ∷ fbs) h.1,
)

-- Flashblocks::new returns a vector as it is exactly when it has the documented form: not empty,
-- opened by a base, of one payload id, with the indices 0, 1, 2, ...
pub new_iff : (fs : List Flashblock) → (new fs ≡ ok fs) ↔ IsValid fs
new_iff fs = (new-IsValid fs, IsValid-new fs)

pub default_flashblocks-IsValid : IsValid default_flashblocks
default_flashblocks-IsValid = ((default_base, refl), (refl, refl, tt))
