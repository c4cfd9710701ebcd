-- ===== src/Block/Convert/RoundTrip.antt =====
-- What comes back from the flashblocks of a built payload.
use rblib_world_chain.Prelude.{
  ℕ, ◌<◌, u64_mod, ◌≡◌, refl, sym, ap, ◌∙◌, Option, none, some, List, [], ◌∷◌, ok, ok_or, collect,
  arith, leb, false, last_or, ◌>>=◌,
}
use mathlib.Core.Option
use mathlib.Core.List.{map-id}
use mathlib.Core.Path.{subst}
use rblib_world_chain.Primitives.Data.{Bytes, BlockAccessList, Flashblock, ExecutionPayloadBaseV1}
use rblib_world_chain.Primitives.Create.{BuiltBlock, Attributes, new}
use rblib_world_chain.Primitives.Collection.Invariant.{IsValid}
use rblib_world_chain.Primitives.Reduce.Summary.{
  all_transactions, all_withdrawals, summary, reduce-summary,
}
use rblib_world_chain.Block.{Block, BuiltPayload, Chain}
use rblib_world_chain.Block.Convert.{
  RecoveredBlock, recovery_failed, nothing_to_reduce, header_of, decode_all, recover_block,
  try_from_flashblock, try_from_flashblocks,
}

module _ {Accounts : Type 0} (chain : Chain Accounts) (ordered_trie_root : List Bytes → ℕ)
    (decode_2718 : Bytes → Option Bytes) where
  -- Each transaction is decoded to itself, and recovered with its sender.
  abbrev pub Decodes : List Bytes → List ℕ → Type 0
  Decodes [] [] = Unit {0}
  Decodes [] (signer ∷ signers) = ⊥
  Decodes (tx ∷ txs) [] = ⊥
  Decodes (tx ∷ txs) (signer ∷ signers) =
      (decode_2718 tx ≡ some tx) × (chain.recover_signer tx ≡ some signer) × Decodes txs signers

  Decodes-decode_all :
      (txs : List Bytes) (signers : List ℕ)
      → Decodes txs signers
      → decode_all chain ordered_trie_root decode_2718 txs ≡ ok txs
  Decodes-decode_all [] [] h = refl
  Decodes-decode_all [] (s ∷ signers) h = absurd h
  Decodes-decode_all (tx ∷ txs) [] h = absurd h
  Decodes-decode_all (tx ∷ txs) (s ∷ signers) h = rw (h.0, Decodes-decode_all txs signers h.2) refl

  Decodes-recover_block :
      (block : Block) (signers : List ℕ)
      → Decodes block.transactions signers
      → recover_block chain ordered_trie_root decode_2718 block
        ≡ ok (record { block = block; senders = signers })
  Decodes-recover_block block signers h =
      ap (λ r. r >>= λ senders. ok (record { block = block; senders = senders }))
        (recovers block.transactions signers h)
    where
      recovers :
          (txs : List Bytes) (signers : List ℕ)
          → Decodes txs signers
          → collect (λ tx. ok_or (chain.recover_signer tx) recovery_failed) txs ≡ ok signers
      recovers [] [] h = refl
      recovers [] (s ∷ signers) h = absurd h
      recovers (tx ∷ txs) [] h = absurd h
      recovers (tx ∷ txs) (s ∷ signers) h = rw (h.1, recovers txs signers h.2) refl

  try_from_flashblock_lem :
      (fb : Flashblock) (base : ExecutionPayloadBaseV1) (signers : List ℕ)
      → fb.base ≡ some base
      → base.base_fee_per_gas < u64_mod
      → Decodes fb.diff.transactions signers
      → try_from_flashblock chain ordered_trie_root decode_2718 fb
        ≡ ok (record {
          block = record {
            header = header_of chain ordered_trie_root decode_2718 base fb.diff;
            transactions = fb.diff.transactions;
            withdrawals = some fb.diff.withdrawals;
            block_access_list = fb.diff.block_access_list;
          };
          senders = signers;
        })
  unfolding try_from_flashblock
  try_from_flashblock_lem fb base signers based fee decodes =
      let fits : leb u64_mod base.base_fee_per_gas ≡ false = ground arith in
      rw (based, fits, Decodes-decode_all fb.diff.transactions signers decodes)
        (Decodes-recover_block
          (record {
            header = header_of chain ordered_trie_root decode_2718 base fb.diff;
            transactions = fb.diff.transactions;
            withdrawals = some fb.diff.withdrawals;
            block_access_list = fb.diff.block_access_list;
          })
          signers decodes)

  -- A valid collection with a base whose fee fits 64 bits, and with transactions that decode and
  -- recover, converts to a block with all its transactions and withdrawals in order and their
  -- senders, the number of the base, the root over all transactions, the state root and the gas of
  -- the last flashblock, and the access list of the first.
  pub try_from_flashblocks_lem :
      (fb : Flashblock) (fbs : List Flashblock) (base : ExecutionPayloadBaseV1) (signers : List ℕ)
      → IsValid (fb ∷ fbs)
      → fb.base ≡ some base
      → base.base_fee_per_gas < u64_mod
      → Decodes (all_transactions (fb ∷ fbs)) signers
      → let latest = last_or fb fbs in
        (r : RecoveredBlock) × (try_from_flashblocks chain ordered_trie_root decode_2718 (fb ∷ fbs)
          ≡ ok r)
        × (r.senders ≡ signers)
        × (r.block.transactions ≡ all_transactions (fb ∷ fbs))
        × (r.block.withdrawals ≡ some (all_withdrawals (fb ∷ fbs)))
        × (r.block.header.number ≡ base.block_number)
        × (r.block.header.transactions_root ≡ ordered_trie_root (all_transactions (fb ∷ fbs)))
        × (r.block.header.state_root ≡ latest.diff.state_root)
        × (r.block.header.gas_used ≡ latest.diff.gas_used)
        × (r.block.block_access_list ≡ fb.diff.block_access_list)
  unfolding try_from_flashblocks
  try_from_flashblocks_lem fb fbs base signers v based fee decodes =
      let reduced : Flashblock = record { flashblock = summary fb fbs } in
      (
        record {
          block = record {
            header = header_of chain ordered_trie_root decode_2718 base reduced.diff;
            transactions = reduced.diff.transactions;
            withdrawals = some reduced.diff.withdrawals;
            block_access_list = reduced.diff.block_access_list;
          };
          senders = signers;
        },
        ap
              (λ o.
                ok_or o nothing_to_reduce
                >>= try_from_flashblock chain ordered_trie_root decode_2718)
              (reduce-summary fb fbs v)
            ∙ try_from_flashblock_lem reduced base signers based fee decodes,
        refl,
        refl,
        refl,
        refl,
        refl,
        refl,
        refl,
        refl,
      )

-- A built payload as `Flashblock::new` reads it, with the hash of its block.
abbrev pub view : {Accounts : Type 0} → ℕ → BuiltPayload Accounts → BuiltBlock Bytes
view hash payload = record {
  state_root = payload.block.header.state_root;
  receipts_root = payload.block.header.receipts_root;
  logs_bloom = payload.block.header.logs_bloom;
  gas_used = payload.block.header.gas_used;
  hash = hash;
  number = payload.block.header.number;
  gas_limit = payload.block.header.gas_limit;
  extra_data = payload.block.header.extra_data;
  base_fee_per_gas = payload.block.header.base_fee_per_gas;
  withdrawals_root = payload.block.header.withdrawals_root;
  transactions = payload.block.transactions;
  withdrawals = payload.block.withdrawals;
  fees = payload.fees;
}

-- A payload's block has the form of a block after Ecotone and Canyon with no blob gas, its header
-- the attributes, and the access list that is published with it.
pub record IsStandard {Accounts : Type 0} (chain : Chain Accounts)
    (ordered_trie_root : List Bytes → ℕ) (attributes : Attributes) (bal : Option BlockAccessList)
    (block : Block) : Type 0 where
  pub parent_hash : attributes.parent ≡ block.header.parent_hash
  pub beneficiary : attributes.suggested_fee_recipient ≡ block.header.beneficiary
  pub mix_hash : attributes.prev_randao ≡ block.header.mix_hash
  pub timestamp : attributes.timestamp ≡ block.header.timestamp
  pub transactions_root : ordered_trie_root block.transactions ≡ block.header.transactions_root
  pub ommers_hash : chain.empty_ommer_root_hash ≡ block.header.ommers_hash
  pub nonce : chain.beacon_nonce ≡ block.header.nonce
  pub difficulty : block.header.difficulty ≡ 0
  pub base_fee : (fee : ℕ) × (block.header.base_fee_per_gas ≡ some fee) × (fee < u64_mod)
  pub withdrawals_root : (root : ℕ) × (block.header.withdrawals_root ≡ some root)
  pub withdrawals : (ws : List ℕ) × (block.withdrawals ≡ some ws)
  pub blob_gas_used : block.header.blob_gas_used ≡ some 0
  pub excess_blob_gas : block.header.excess_blob_gas ≡ some 0
  pub access_list : block.block_access_list ≡ bal
  pub access_list_hash :
      Option.map chain.compute_block_access_list_hash bal ≡ block.header.block_access_list_hash

module _ {Accounts : Type 0} (chain : Chain Accounts) (ordered_trie_root : List Bytes → ℕ)
    (decode_2718 : Bytes → Option Bytes) where
  -- A built payload whose block has the form of Canyon and Ecotone with no blob gas, matches its
  -- attributes and is published as one flashblock, with transactions that decode and recover, comes
  -- back from the flashblock as the same block and senders, but without the parent beacon block root
  -- and the requests hash.
  pub try_from_flashblock-new :
      (payload : BuiltPayload Accounts) (attributes : Attributes) (bal : Option BlockAccessList)
      (now hash : ℕ) (signers : List ℕ)
      → IsStandard chain ordered_trie_root attributes bal payload.block
      → Decodes chain ordered_trie_root decode_2718 payload.block.transactions signers
      → try_from_flashblock chain ordered_trie_root decode_2718
          (new (λ tx. tx) now (view hash payload) attributes 0 0 0 bal)
        ≡ ok (record {
          block = record payload.block {
            header = record payload.block.header {
              parent_beacon_block_root = none;
              requests_hash = none;
            };
          };
          senders = signers;
        })
  unfolding new
  try_from_flashblock-new payload attributes bal now hash signers s decodes =
      let (fee, fee_eq, small) = s.base_fee in
      let (root, root_eq) = s.withdrawals_root in
      let (ws, ws_eq) = s.withdrawals in
      let fb = new (λ tx. tx) now (view hash payload) attributes 0 0 0 bal in
      let txs : fb.diff.transactions ≡ payload.block.transactions =
        map-id payload.block.transactions in
      try_from_flashblock_lem chain ordered_trie_root decode_2718 fb _ signers refl
        (rw fee_eq small)
        (subst (λ l. Decodes chain ordered_trie_root decode_2718 l signers) (sym txs) decodes)
      ∙ ap (λ b. ok (record { block = b; senders = signers }))
          (rw
            (
              txs, s.parent_hash, s.beneficiary, s.mix_hash, s.timestamp, s.transactions_root,
              s.ommers_hash, s.nonce, s.difficulty, fee_eq, root_eq, ws_eq, s.blob_gas_used,
              s.excess_blob_gas, s.access_list, s.access_list_hash,
            )
            refl)
