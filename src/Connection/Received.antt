-- ===== src/Connection/Received.antt =====
-- How the bitmap of received indices changes under `fill`, `resize` and `set`.
use rblib_world_chain.Prelude.{
  ℕ, zero, suc, ◌-◌, ◌≤◌, ◌<◌, ◌≡◌, refl, Bool, true, false, List, [], ◌∷◌, ◌++◌, length, fill, set,
  replicate, ◌==◌, if◌then◌else◌, arith, length-append, length-replicate,
}
use rblib_world_chain.Connection.{has_received, resize}

pub has_received-fill : (bs : List Bool) (i : ℕ) → has_received (fill bs false) i ≡ false
unfolding has_received
has_received-fill [] i = refl
has_received-fill (b ∷ bs) zero = refl
has_received-fill (b ∷ bs) (suc i) = has_received-fill bs i

has_received-replicate : (n i : ℕ) → has_received (replicate n false) i ≡ false
unfolding has_received
has_received-replicate zero i = refl
has_received-replicate (suc n) zero = refl
has_received-replicate (suc n) (suc i) = has_received-replicate n i

has_received-append :
    (bs : List Bool) (n i : ℕ) → has_received (bs ++ replicate n false) i ≡ has_received bs i
unfolding has_received
has_received-append [] n i = has_received-replicate n i
has_received-append (b ∷ bs) n zero = refl
has_received-append (b ∷ bs) n (suc i) = has_received-append bs n i

pub has_received-resize :
    (bs : List Bool) (n i : ℕ) → has_received (resize bs n) i ≡ has_received bs i
unfolding resize
has_received-resize bs n i = ground (arith, has_received-append bs (n - length bs) i)

pub length-resize-ge : (bs : List Bool) (n : ℕ) → n ≤ length (resize bs n)
unfolding resize
length-resize-ge bs n = ground (
  arith,
  length-append bs (replicate (n - length bs) false),
  length-replicate (n - length bs) false,
)

pub length-resize-le : (bs : List Bool) (n m : ℕ) → length bs ≤ m → n ≤ m → length (resize bs n) ≤ m
unfolding resize
length-resize-le bs n m h k = ground (
  arith,
  length-append bs (replicate (n - length bs) false),
  length-replicate (n - length bs) false,
)

pub has_received-set :
    (bs : List Bool) (i j : ℕ)
    → i < length bs
    → has_received (set bs i true) j ≡ (if i == j then true else has_received bs j)
unfolding has_received
has_received-set [] i j h = elim h [ ]
has_received-set (b ∷ bs) zero zero h = refl
has_received-set (b ∷ bs) zero (suc j) h = ground arith
has_received-set (b ∷ bs) (suc i) zero h = ground arith
has_received-set (b ∷ bs) (suc i) (suc j) h = ground (arith, has_received-set bs i j (omega arith))
