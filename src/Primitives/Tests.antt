-- ===== src/Primitives/Tests.antt =====
-- Runs of the collection, of `reduce` and of `Flashblock::new` on concrete flashblocks.
use rblib_world_chain.Prelude.{ℕ, ◌≡◌, ◌↔◌, ◌≤◌, refl, none, some, List, [], ◌∷◌, true, ok}
use rblib_world_chain.Primitives.Data.{Flashblock, Bytes}
use rblib_world_chain.Primitives.Samples.{base_at, opening, following, two_flashblocks, successor}
use rblib_world_chain.Primitives.Collection.{new, push}
use rblib_world_chain.Primitives.Collection.Invariant.{IsValid, new_iff}
use rblib_world_chain.Primitives.Collection.Push.{
  Pushes, push_iff, push_all, base_time, push_all-IsValid,
}
use rblib_world_chain.Primitives.Reduce.{reduce}
use rblib_world_chain.Primitives.Reduce.Summary.{summary, reduce-summary}
use rblib_world_chain.Primitives.Create.{BuiltBlock, Attributes}
use rblib_world_chain.Primitives.Create.Cut.{cut, reduce-cut}

abbrev two-IsValid : IsValid two_flashblocks
two-IsValid = ((base_at 100, refl), (refl, refl, (refl, refl, tt)))

new_iff_example : (new two_flashblocks ≡ ok two_flashblocks) ↔ IsValid two_flashblocks
new_iff_example = new_iff two_flashblocks

push_iff_example :
    (push two_flashblocks successor ≡ ok (successor ∷ [], true))
    ↔ Pushes two_flashblocks successor (successor ∷ []) true
push_iff_example = push_iff two_flashblocks (successor ∷ []) successor true two-IsValid

push_all-IsValid_example :
    IsValid (push_all two_flashblocks (following ∷ successor ∷ []))
    × (base_time two_flashblocks
        ≤ base_time (push_all two_flashblocks (following ∷ successor ∷ [])))
push_all-IsValid_example = push_all-IsValid two_flashblocks (following ∷ successor ∷ []) two-IsValid

reduce-summary_example :
    reduce two_flashblocks ≡ some (record { flashblock = summary opening (following ∷ []) })
reduce-summary_example = reduce-summary opening (following ∷ []) two-IsValid

-- A block of the given transactions, each its own encoding.
abbrev block_of : List ℕ → BuiltBlock ℕ
block_of txs = record {
  state_root = 1;
  receipts_root = 2;
  logs_bloom = 3;
  gas_used = 21000;
  hash = 4;
  number = 5;
  gas_limit = 30000000;
  extra_data = [];
  base_fee_per_gas = some 6;
  withdrawals_root = none;
  transactions = txs;
  withdrawals = none;
  fees = 9;
}

abbrev sample_attributes : Attributes
sample_attributes = record {
  payload_id = 7;
  parent = 77;
  parent_beacon_block_root = none;
  suggested_fee_recipient = 1;
  prev_randao = 2;
  timestamp = 100;
}

abbrev encoded : ℕ → Bytes
encoded tx = tx ∷ []

reduce-cut_example :
    (r : Flashblock) × (reduce
        (cut encoded 50 sample_attributes 0 0 (block_of (1 ∷ []) ∷ block_of (1 ∷ 2 ∷ 3 ∷ []) ∷ []))
      ≡ some r)
    × (r.diff.transactions ≡ (1 ∷ []) ∷ (2 ∷ []) ∷ (3 ∷ []) ∷ [])
    × (r.diff.block_hash ≡ 4)
    × (r.diff.gas_used ≡ 21000)
    × (r.index ≡ 1)
reduce-cut_example =
    reduce-cut encoded 50 sample_attributes (block_of (1 ∷ [])) (block_of (1 ∷ 2 ∷ 3 ∷ []) ∷ [])
      ((1 ∷ [], refl), ((2 ∷ 3 ∷ [], refl), tt))
