-- ===== src/Primitives/Samples.antt =====
-- Concrete flashblocks for the tests.
use rblib_world_chain.Prelude.{ℕ, Option, none, some, List, [], ◌∷◌}
use rblib_world_chain.Primitives.Data.{
  Payload, Flashblock, ExecutionPayloadBaseV1, default_base, default_diff,
}

abbrev pub base_at : ℕ → ExecutionPayloadBaseV1
base_at timestamp = record default_base { timestamp = timestamp; parent_hash = 77 }

-- The flashblock of an index, with one transaction and one withdrawal that show it.
abbrev pub sample : (id index : ℕ) → Option ExecutionPayloadBaseV1 → Payload
sample id index base = record {
  payload_id = id;
  index = index;
  diff = record default_diff {
    transactions = (id ∷ index ∷ []) ∷ [];
    withdrawals = index ∷ [];
    gas_used = index;
    block_hash = index;
  };
  metadata = record { fees = index; flashblock_timestamp = some 5 };
  base = base;
}

abbrev pub wrap : Payload → Flashblock
wrap p = record { flashblock = p }

abbrev pub opening : Flashblock
opening = wrap (sample 7 0 (some (base_at 100)))

abbrev pub following : Flashblock
following = wrap (sample 7 1 none)

abbrev pub two_flashblocks : List Flashblock
two_flashblocks = opening ∷ following ∷ []

-- the first flashblock of a later payload
abbrev pub successor : Flashblock
successor = wrap (sample 8 0 (some (base_at 102)))
