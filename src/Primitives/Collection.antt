-- ===== src/Primitives/Collection.antt =====
-- `Flashblocks` of src/flashblocks/primitives.rs: a vector of flashblocks of one payload, its
-- validating constructor and `push`. A call of `unwrap` on `None` is the error `panicked`.
pub mod Invariant
pub mod Push
use rblib_world_chain.Prelude.{
  ℕ, ◌+◌, Option, none, some, List, [], ◌∷◌, ◌++◌, Bool, true, false, not, ◌||◌, length, ◌==◌, leb,
  if◌then◌else◌, Result, ok, err, ◌>>=◌, ok_or,
}
use rblib_world_chain.Primitives.Data.{
  Flashblock, FlashblockMetadata, ExecutionPayloadBaseV1, default_base, default_diff,
}

pub data Error : Type 0 where
  empty first_without_base mixed_payload_ids not_contiguous : Error
  index_not_zero missing_base stale_timestamp panicked : Error

abbrev pub Flashblocks : Type 0
Flashblocks = List Flashblock

-- `Default`: one flashblock with default fields and a default base.
abbrev pub default_flashblocks : Flashblocks
default_flashblocks = first ∷ []
  where
    first : Flashblock
    first = record {
      flashblock = record {
        payload_id = 0;
        index = 0;
        diff = default_diff;
        metadata = record { fees = 0; flashblock_timestamp = none };
        base = some default_base;
      };
    }

-- `iter.any(|fb| fb.payload_id() != payload_id)`
any_other_id : ℕ → List Flashblock → Bool
any_other_id id [] = false
any_other_id id (fb ∷ fbs) = not (fb.payload_id == id) || any_other_id id fbs

-- The `for` loop of `new`, from position `i` on.
check_indices : ℕ → List Flashblock → Result Error (Unit {0})
check_indices i [] = ok tt
check_indices i (fb ∷ fbs) =
    let rest = check_indices (i + 1) fbs in if not (fb.index == i) then err not_contiguous else rest

pub new : List Flashblock → Result Error Flashblocks
unfolding any_other_id check_indices
new [] = err empty
new (first ∷ rest) = elim first.base [
  | none ↦ err first_without_base
  | some _ ↦
      if any_other_id first.payload_id rest
      then err mixed_payload_ids
      else (check_indices 0 (first ∷ rest) >>= λ _. ok (first ∷ rest))
]

unfoldable pub first : Flashblocks → Result Error Flashblock
first [] = err panicked
first (fb ∷ fbs) = ok fb

unfoldable pub last : Flashblocks → Result Error Flashblock
last [] = err panicked
last (fb ∷ []) = ok fb
last (fb ∷ fb' ∷ fbs) = last (fb' ∷ fbs)

unfoldable pub payload_id : Flashblocks → Result Error ℕ
unfolding first
payload_id fs = first fs >>= λ fb. ok fb.payload_id

unfoldable pub base : Flashblocks → Result Error ExecutionPayloadBaseV1
unfolding first
base fs = first fs >>= λ fb. ok_or fb.base panicked

-- The checks on a flashblock of another payload.
unfoldable pub starts_payload : Flashblocks → Flashblock → Result Error Bool
unfolding base
starts_payload fs fb =
    if not (fb.index == 0)
    then err index_not_zero
    else (ok_or fb.base missing_base >>= λ b.
        base fs >>= λ cur. if leb b.timestamp cur.timestamp then err stale_timestamp else ok true)

unfoldable pub is_new_payload : Flashblocks → Flashblock → Result Error Bool
unfolding payload_id starts_payload
is_new_payload fs fb = payload_id fs >>= λ id.
    if not (fb.payload_id == id)
    then starts_payload fs fb
    else (if not (fb.index == length fs) then err not_contiguous else ok false)

-- The collection after the call, with the flag that the call returns.
unfoldable pub push : Flashblocks → Flashblock → Result Error (Flashblocks × Bool)
push fs fb = is_new_payload fs fb >>= λ fresh. ok ((if fresh then [] else fs) ++ (fb ∷ []), fresh)
