-- ===== src/Primitives/Reduce.antt =====
-- `Flashblock::reduce` of src/flashblocks/primitives.rs: the flashblocks of a payload merged into
-- one. The `debug_assert` on equal payload ids is left out: it has no effect in a release build, and
-- a valid collection meets it.
pub mod Summary
use rblib_world_chain.Prelude.{Option, none, some, List, [], ◌∷◌, ◌++◌}
use rblib_world_chain.Primitives.Data.{Payload, Flashblock}
use rblib_world_chain.Primitives.Collection.{Flashblocks}

-- The body of the loop.
merge : Payload → Payload → Payload
merge acc next = record acc {
  base = elim acc.base [ none ↦ next.base | some b ↦ some b ];
  index = next.index;
  metadata = record acc.metadata {
    fees = next.metadata.fees;
    flashblock_timestamp = next.metadata.flashblock_timestamp;
  };
  diff = record acc.diff {
    gas_used = next.diff.gas_used;
    transactions = acc.diff.transactions ++ next.diff.transactions;
    withdrawals = acc.diff.withdrawals ++ next.diff.withdrawals;
    state_root = next.diff.state_root;
    receipts_root = next.diff.receipts_root;
    logs_bloom = next.diff.logs_bloom;
    withdrawals_root = next.diff.withdrawals_root;
    block_hash = next.diff.block_hash;
  };
}

merge_all : Payload → List Flashblock → Payload
merge_all acc [] = acc
merge_all acc (next ∷ rest) = merge_all (merge acc next.flashblock) rest

unfoldable pub reduce : Flashblocks → Option Flashblock
unfolding merge merge_all
reduce [] = none
reduce (fb ∷ fbs) = some (record { flashblock = merge_all fb.flashblock fbs })
