-- ===== src/Primitives/Create/Cut.antt =====
-- A block that grows is cut into flashblocks, and `reduce` puts the pieces together again.
use rblib_world_chain.Prelude.{
  drop-append, ℕ, suc, ◌+◌, ◌≡◌, refl, sym, ◌∙◌, ap, append-nil, append_assoc, none, some, List, [],
  ◌∷◌, ◌++◌, map, drop, length, last_or, arith,
}
use mathlib.Core.List.{map-append}
use rblib_world_chain.Primitives.Data.{Flashblock, Bytes}
use rblib_world_chain.Primitives.Collection.Invariant.{Contiguous, IsValid}
use rblib_world_chain.Primitives.Reduce.{reduce}
use rblib_world_chain.Primitives.Reduce.Summary.{all_transactions, summary, reduce-summary}
use rblib_world_chain.Primitives.Create.{BuiltBlock, Attributes, new}

-- Each block holds the transactions of the one before, and then more.
abbrev pub Grows : {Tx : Type 0} → List Tx → List (BuiltBlock Tx) → Type 0
Grows {Tx} txs [] = Unit {0}
Grows {Tx} txs (block ∷ blocks) =
    ((more : List Tx) × (block.transactions ≡ txs ++ more)) × Grows block.transactions blocks

module _ {Tx : Type 0} (encoded_2718 : Tx → Bytes) (now : ℕ) (attributes : Attributes) where
  -- The flashblocks of blocks that grow, from index `i` on, when `sent` transactions are out: each is
  -- made by `Flashblock::new` at the offset where the last one ended.
  unfoldable pub cut : ℕ → ℕ → List (BuiltBlock Tx) → List Flashblock
  cut i sent [] = []
  cut i sent (block ∷ blocks) =
      new encoded_2718 now block attributes i sent 0 none
      ∷ cut (suc i) (length block.transactions) blocks

  pub cut-Contiguous :
      (i sent : ℕ) (blocks : List (BuiltBlock Tx))
      → Contiguous i attributes.payload_id (cut i sent blocks)
  unfolding cut new
  cut-Contiguous i sent [] = tt
  cut-Contiguous i sent (block ∷ blocks) =
      (refl, refl, cut-Contiguous (suc i) (length block.transactions) blocks)

  -- The flashblocks of one payload form a valid collection.
  pub cut-IsValid :
      (block : BuiltBlock Tx) (blocks : List (BuiltBlock Tx)) → IsValid (cut 0 0 (block ∷ blocks))
  unfolding cut new
  cut-IsValid block blocks = ((_, refl), cut-Contiguous 0 0 (block ∷ blocks))

  -- What is already out, followed by the new piece, is the whole block.
  piece :
      (txs : List Tx) (block : BuiltBlock Tx) (more : List Tx)
      → block.transactions ≡ txs ++ more
      → map encoded_2718 txs ++ map encoded_2718 (drop (length txs) block.transactions)
        ≡ map encoded_2718 block.transactions
  piece txs block more e = rw (e, drop-append txs more) (sym (map-append encoded_2718 txs more))

  pub all_transactions-cut :
      (i : ℕ) (txs : List Tx) (block : BuiltBlock Tx) (blocks : List (BuiltBlock Tx))
      → Grows txs (block ∷ blocks)
      → map encoded_2718 txs ++ all_transactions (cut i (length txs) (block ∷ blocks))
        ≡ map encoded_2718 (last_or block blocks).transactions
  unfolding cut new
  all_transactions-cut i txs block [] g =
      ap (◌++◌ (map encoded_2718 txs)) (append-nil _) ∙ piece txs block g.0.0 g.0.1
  all_transactions-cut i txs block (next ∷ rest) g =
      sym (append_assoc (map encoded_2718 txs) _ _)
      ∙ ap (λ xs. xs ++ all_transactions (cut (suc i) (length block.transactions) (next ∷ rest)))
          (piece txs block g.0.0 g.0.1)
      ∙ all_transactions-cut (suc i) block.transactions next rest g.1

  -- the last piece describes the last block
  last-cut :
      (i sent : ℕ) (block : BuiltBlock Tx) (blocks : List (BuiltBlock Tx))
      → let piece = new encoded_2718 now block attributes i sent 0 none in
        let latest = last_or piece (cut (suc i) (length block.transactions) blocks) in
        (latest.diff.block_hash ≡ (last_or block blocks).hash)
        × (latest.diff.gas_used ≡ (last_or block blocks).gas_used)
        × (latest.index ≡ i + length blocks)
  unfolding cut new
  last-cut i sent block [] = (refl, refl, omega arith)
  last-cut i sent block (next ∷ rest) =
      let ih = last-cut (suc i) (length block.transactions) next rest in
      (ih.0, ih.1, omega (arith, ih.2))

  -- Blocks that grow, each cut by Flashblock::new at the offset where the last cut ended, give
  -- flashblocks that reduce to one flashblock with all the encoded transactions of the last block,
  -- its hash and its gas, and the index of the last piece.
  pub reduce-cut :
      (block : BuiltBlock Tx) (blocks : List (BuiltBlock Tx))
      → Grows [] (block ∷ blocks)
      → let latest = last_or block blocks in
        (r : Flashblock) × (reduce (cut 0 0 (block ∷ blocks)) ≡ some r)
        × (r.diff.transactions ≡ map encoded_2718 latest.transactions)
        × (r.diff.block_hash ≡ latest.hash)
        × (r.diff.gas_used ≡ latest.gas_used)
        × (r.index ≡ length blocks)
  unfolding cut
  reduce-cut block blocks g =
      let first = new encoded_2718 now block attributes 0 0 0 none in
      let rest = cut 1 (length block.transactions) blocks in
      let latest = last-cut 0 0 block blocks in
      (
        record { flashblock = summary first rest },
        reduce-summary first rest (cut-IsValid block blocks),
        all_transactions-cut 0 [] block blocks g,
        latest.0,
        latest.1,
        latest.2 ∙ omega arith,
      )
