-- ===== src/Primitives/Collection/Push.antt =====
-- What `push` does on every branch, and what a whole sequence of calls keeps.
use rblib_world_chain.Prelude.{
  ℕ, ◌+◌, length-append, if◌then◌else◌, ◌≤◌, ◌<◌, ◌≡◌, ◌≢◌, ◌⊎◌, inl, inr, refl, ◌↔◌, none, some,
  List, [], ◌∷◌, ◌++◌, Bool, true, false, arith, length, ok, err, Result-cases,
}
use rblib_world_chain.Primitives.Data.{Flashblock, ExecutionPayloadBaseV1}
use rblib_world_chain.Primitives.Collection.{
  Error, index_not_zero, Flashblocks, panicked, payload_id, base, is_new_payload, push,
}
use rblib_world_chain.Primitives.Collection.Invariant.{IsValid, Contiguous-snoc}

-- `fb` carries the payload on: same id, next index.
abbrev pub Continues : Flashblocks → Flashblock → Type 0
Continues fs fb = (payload_id fs ≡ ok fb.payload_id) × (fb.index ≡ length fs)

-- `fb` opens a later payload: another id, index 0, and a base with a later timestamp.
abbrev pub Opens : Flashblocks → Flashblock → Type 0
Opens fs fb =
    (payload_id fs ≢ ok fb.payload_id)
    × (fb.index ≡ 0)
    × ((b : ExecutionPayloadBaseV1) × (cur : ExecutionPayloadBaseV1) × (fb.base ≡ some b)
        × (base fs ≡ ok cur)
        × (cur.timestamp < b.timestamp))

pub Continues-is_new_payload :
    (fs : Flashblocks) (fb : Flashblock)
    → IsValid fs
    → Continues fs fb
    → is_new_payload fs fb ≡ ok false
unfolding is_new_payload
Continues-is_new_payload [] fb v h = absurd v
Continues-is_new_payload (x ∷ xs) fb v h = ground arith

pub Opens-is_new_payload :
    (fs : Flashblocks) (fb : Flashblock) → IsValid fs → Opens fs fb → is_new_payload fs fb ≡ ok true
unfolding is_new_payload base
Opens-is_new_payload [] fb v h = absurd v
Opens-is_new_payload (x ∷ xs) fb v h = ground arith

pub is_new_payload-Continues :
    (fs : Flashblocks) (fb : Flashblock) → is_new_payload fs fb ≡ ok false → Continues fs fb
unfolding is_new_payload base
is_new_payload-Continues [] fb h = cc
is_new_payload-Continues (x ∷ xs) fb h = ground arith

is_new_payload-Opens :
    (fs : Flashblocks) (fb : Flashblock) → is_new_payload fs fb ≡ ok true → Opens fs fb
unfolding is_new_payload base
is_new_payload-Opens [] fb h = cc
is_new_payload-Opens (x ∷ xs) fb h = ground arith

-- On a valid collection push never ends in a failed unwrap.
pub push-ne-panicked : (fs : Flashblocks) (fb : Flashblock) → IsValid fs → push fs fb ≢ err panicked
unfolding push is_new_payload base
push-ne-panicked [] fb v h = v
push-ne-panicked (x ∷ xs) fb v h = ground arith

-- A flashblock of another payload is refused unless it is that payload's first.
pub push_misplaced :
    (fs : Flashblocks) (fb : Flashblock)
    → payload_id fs ≢ ok fb.payload_id
    → fb.index ≢ 0
    → (x : Error) × (push fs fb ≡ err x)
unfolding push is_new_payload
push_misplaced [] fb other moved = (panicked, refl)
push_misplaced (x ∷ xs) fb other moved = (index_not_zero, ground arith)

-- What a successful call returns: the collection with the next flashblock of its payload appended,
-- or the first flashblock of a later payload alone, with the flag that tells the two apart.
abbrev pub Pushes : Flashblocks → Flashblock → Flashblocks → Bool → Type 0
Pushes fs fb fs' fresh =
    (Continues fs fb × (fs' ≡ fs ++ (fb ∷ [])) × (fresh ≡ false))
    ⊎ (Opens fs fb × (fs' ≡ fb ∷ []) × (fresh ≡ true))

push-Pushes :
    (fs fs' : Flashblocks) (fb : Flashblock) (fresh : Bool)
    → push fs fb ≡ ok (fs', fresh)
    → Pushes fs fb fs' fresh
unfolding push
push-Pushes fs fs' fb true h =
    inr (is_new_payload-Opens fs fb (ground arith), ground arith, ground arith)
push-Pushes fs fs' fb false h =
    inl (is_new_payload-Continues fs fb (ground arith), ground arith, ground arith)

Pushes-push :
    (fs fs' : Flashblocks) (fb : Flashblock) (fresh : Bool)
    → IsValid fs
    → Pushes fs fb fs' fresh
    → push fs fb ≡ ok (fs', fresh)
unfolding push
Pushes-push fs fs' fb fresh v (inl (c, e, f)) =
    rw (Continues-is_new_payload fs fb v c) (rw (e, f) refl)
Pushes-push fs fs' fb fresh v (inr (o, e, f)) = rw (Opens-is_new_payload fs fb v o) (rw (e, f) refl)

-- On a valid collection push succeeds in exactly two cases: it appends the next flashblock of the
-- same payload and returns false, or it replaces the collection by the first flashblock of a later
-- payload and returns true.
pub push_iff :
    (fs fs' : Flashblocks) (fb : Flashblock) (fresh : Bool)
    → IsValid fs
    → (push fs fb ≡ ok (fs', fresh)) ↔ Pushes fs fb fs' fresh
push_iff fs fs' fb fresh v = (push-Pushes fs fs' fb fresh, Pushes-push fs fs' fb fresh v)

Continues-IsValid :
    (fs : Flashblocks) (fb : Flashblock) → IsValid fs → Continues fs fb → IsValid (fs ++ (fb ∷ []))
unfolding payload_id
Continues-IsValid [] fb v h = absurd v
Continues-IsValid (x ∷ xs) fb v h =
    (v.0, Contiguous-snoc 0 x.payload_id (x ∷ xs) fb v.1 (omega arith) (ground arith))

Opens-IsValid : (fs : Flashblocks) (fb : Flashblock) → Opens fs fb → IsValid (fb ∷ [])
Opens-IsValid fs fb h = ((h.2.0, h.2.2), (h.1, refl, tt))

-- A successful `push` keeps the collection valid.
pub push-IsValid :
    (fs fs' : Flashblocks) (fb : Flashblock) (fresh : Bool)
    → IsValid fs
    → push fs fb ≡ ok (fs', fresh)
    → IsValid fs'
push-IsValid fs fs' fb fresh v h = elim (push-Pushes fs fs' fb fresh h) [
  | inl (c, e, _) ↦ rw e (Continues-IsValid fs fb v c)
  | inr (o, e, _) ↦ rw e (Opens-IsValid fs fb o)
]

-- The calls of `push` in a row; a refused flashblock leaves the collection as it was.
pub push_or_keep : Flashblocks → Flashblock → Flashblocks
push_or_keep fs fb = elim (push fs fb) [ ok (fs', _) ↦ fs' | err _ ↦ fs ]

pub push_all : Flashblocks → List Flashblock → Flashblocks
push_all fs [] = fs
push_all fs (fb ∷ fbs) = push_all (push_or_keep fs fb) fbs

-- The timestamp of the base, 0 where there is none.
abbrev pub base_time : Flashblocks → ℕ
base_time [] = 0
base_time (fb ∷ fbs) = elim fb.base [ none ↦ 0 | some b ↦ b.timestamp ]

push_or_keep-IsValid :
    (fs : Flashblocks) (fb : Flashblock) → IsValid fs → IsValid (push_or_keep fs fb)
unfolding push_or_keep
push_or_keep-IsValid fs fb v = elim (Result-cases (push fs fb)) [
  | inl ((fs', fresh), e) ↦ rw (e, push_or_keep) (push-IsValid fs fs' fb fresh v e)
  | inr (_, e) ↦ rw (e, push_or_keep) v
]

base_time-push_or_keep :
    (fs : Flashblocks) (fb : Flashblock)
    → IsValid fs
    → base_time fs ≤ base_time (push_or_keep fs fb)
unfolding push_or_keep push is_new_payload base
base_time-push_or_keep [] fb v = absurd v
base_time-push_or_keep (x ∷ xs) fb v = ground arith

-- Any sequence of calls of push from a valid collection, a refused flashblock leaving it as it was,
-- ends in a valid one, and the timestamp of its base is not below that of the base at the start.
pub push_all-IsValid :
    (fs : Flashblocks) (fbs : List Flashblock)
    → IsValid fs
    → IsValid (push_all fs fbs) × (base_time fs ≤ base_time (push_all fs fbs))
unfolding push_all
push_all-IsValid fs [] v = (v, omega arith)
push_all-IsValid fs (fb ∷ fbs) v =
    let rest = push_all-IsValid (push_or_keep fs fb) fbs (push_or_keep-IsValid fs fb v) in
    (rest.0, omega (arith, rest.1, base_time-push_or_keep fs fb v))

-- After a successful `push` the collection is of the flashblock's payload, and ends with it.
pub push_current :
    (fs fs' : Flashblocks) (fb : Flashblock) (fresh : Bool)
    → push fs fb ≡ ok (fs', fresh)
    → (payload_id fs' ≡ ok fb.payload_id) × (fb.index + 1 ≡ length fs')
unfolding payload_id
push_current [] fs' fb fresh h = elim (push-Pushes [] fs' fb fresh h) [
  | inl (c, _, _) ↦ cc
  | inr (o, e, _) ↦ rw e (refl, omega (arith, o.1))
]
push_current (x ∷ xs) fs' fb fresh h = elim (push-Pushes (x ∷ xs) fs' fb fresh h) [
  | inl (c, e, _) ↦ rw e (c.0, omega (arith, c.1, length-append xs (fb ∷ [])))
  | inr (o, e, _) ↦ rw e (refl, omega (arith, o.1))
]

-- `is_new_payload` accepts exactly what `push` accepts.
pub push_of_is_new_payload :
    (fs : Flashblocks) (fb : Flashblock) (fresh : Bool)
    → is_new_payload fs fb ≡ ok fresh
    → (fs' : Flashblocks) × (push fs fb ≡ ok (fs', fresh))
unfolding push
push_of_is_new_payload fs fb fresh h = ((if fresh then [] else fs) ++ (fb ∷ []), rw h)
