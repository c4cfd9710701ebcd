-- ===== src/Primitives/Reduce/Summary.antt =====
-- `reduce` against a description of its result that has no loop.
use rblib_world_chain.Prelude.{
  ℕ, ◌≡◌, ◌∙◌, some, List, [], ◌∷◌, ◌++◌, append-nil, append_assoc, last_or, arith,
}
use rblib_world_chain.Primitives.Data.{Payload, Flashblock, Bytes, ExecutionPayloadBaseV1}
use rblib_world_chain.Primitives.Collection.Invariant.{IsValid}
use rblib_world_chain.Primitives.Reduce.{merge, merge_all, reduce}

-- All transactions, and all withdrawals, in the order of the flashblocks.
abbrev pub all_transactions : List Flashblock → List Bytes
all_transactions [] = []
all_transactions (fb ∷ fbs) = fb.diff.transactions ++ all_transactions fbs

abbrev pub all_withdrawals : List Flashblock → List ℕ
all_withdrawals [] = []
all_withdrawals (fb ∷ fbs) = fb.diff.withdrawals ++ all_withdrawals fbs

-- Payload id, base and access list of the first flashblock, all transactions and withdrawals, and
-- everything else of the last flashblock.
abbrev pub summary : Flashblock → List Flashblock → Payload
summary fb fbs = record fb.flashblock {
  index = latest.index;
  metadata = latest.metadata;
  diff = record latest.diff {
    transactions = all_transactions (fb ∷ fbs);
    withdrawals = all_withdrawals (fb ∷ fbs);
    block_access_list = fb.diff.block_access_list;
  };
}
  where
    latest : Flashblock
    latest = last_or fb fbs

merge-summary :
    (fb x : Flashblock) (xs : List Flashblock) (b : ExecutionPayloadBaseV1)
    → fb.base ≡ some b
    → summary (record { flashblock = merge fb.flashblock x.flashblock }) xs ≡ summary fb (x ∷ xs)
unfolding merge
merge-summary fb x [] b h = simp append-nil (ground arith)
merge-summary fb x (y ∷ ys) b h = ground (
  arith,
  append_assoc fb.diff.transactions x.diff.transactions (all_transactions (y ∷ ys)),
  append_assoc fb.diff.withdrawals x.diff.withdrawals (all_withdrawals (y ∷ ys)),
)

merge_all-summary :
    (fb : Flashblock) (fbs : List Flashblock) (b : ExecutionPayloadBaseV1)
    → fb.base ≡ some b
    → merge_all fb.flashblock fbs ≡ summary fb fbs
unfolding merge merge_all
merge_all-summary fb [] b h = simp append-nil
merge_all-summary fb (x ∷ xs) b h =
    merge_all-summary (record { flashblock = merge fb.flashblock x.flashblock }) xs b (rw h)
    ∙ merge-summary fb x xs b h

-- A valid collection reduces to one flashblock with the payload id, the base and the access list of
-- the first, the transactions and withdrawals of all in order, and everything else of the last.
pub reduce-summary :
    (fb : Flashblock) (fbs : List Flashblock)
    → IsValid (fb ∷ fbs)
    → reduce (fb ∷ fbs) ≡ some (record { flashblock = summary fb fbs })
unfolding reduce
reduce-summary fb fbs v = rw (merge_all-summary fb fbs v.0.0 v.0.1)
