-- ===== src/Block/Follower/Transactions.antt =====
-- The transactions of the latest payload against those of the collected flashblocks, over runs of the
-- executor with this builder.
use rblib_world_chain.Prelude.{
  ◌≡◌, refl, sym, ap, ◌∙◌, none, some, List, [], ◌∷◌, ◌++◌, Bool, true, false, ok, arith,
  Result-cases, Option-cases, inl, inr, append_assoc, append-nil, if◌then◌else◌,
}
use rblib_world_chain.Primitives.Data.{Bytes, Payload, Flashblock, ExecutionPayloadBaseV1}
use rblib_world_chain.Primitives.Collection.{Flashblocks, push, is_new_payload}
use rblib_world_chain.Primitives.Collection
use rblib_world_chain.Executor.Request.{Node, build_payload}
use rblib_world_chain.Executor.{
  Executor, new, process_flashblock, process_unseen, build_and_store, store, already_processed,
  broadcast_payload,
}
use rblib_world_chain.Executor.Invariant.{IsCoherent, process_flashblock-IsCoherent, new-IsCoherent}
use rblib_world_chain.Block.{BuiltPayload, ExecutedBlock, EvmEnv, Chain, StateProvider, flat_map}
use rblib_world_chain.Block.Builder.{Parent, Engine}
use rblib_world_chain.Block.Follower.{builder_node, builder_node-IsFaithful}
use rblib_world_chain.Block.Follower.Built.{IsExact, latest_txs, build_payload-txs}

-- The transactions of a collection, in order.
abbrev pub collected_txs : Flashblocks → List Bytes
collected_txs fs = flat_map (λ fb. fb.diff.transactions) fs

module _ {Accounts Db Cache Info Slots : Type 0} (chain : Chain Accounts)
    (engine : Engine Accounts Db Cache Info Slots) (provider : Db → StateProvider Accounts)
    (node : Node Bytes (BuiltPayload Accounts) (ExecutedBlock Accounts) Parent EvmEnv Db) where
  abbrev full_node : Node Bytes (BuiltPayload Accounts) (ExecutedBlock Accounts) Parent EvmEnv Db
  full_node = builder_node chain engine provider node

  abbrev Exact : Type 0
  Exact = IsExact chain engine provider node

  abbrev pub State : Type 0
  State = Executor (BuiltPayload Accounts) (ExecutedBlock Accounts)

  -- The block of the latest payload has the transactions of the collected flashblocks, in order.
  abbrev pub Follows : State → Type 0
  Follows e = latest_txs chain engine provider node e.latest_payload ≡ collected_txs e.flashblocks

  pub broadcast_frame :
      (e : State) (built : BuiltPayload Accounts)
      → ((broadcast_payload e built).latest_payload ≡ e.latest_payload)
        × ((broadcast_payload e built).flashblocks ≡ e.flashblocks)
  unfolding broadcast_payload
  broadcast_frame e built = ground arith

  collected-snoc :
      (fs : Flashblocks) (fb : Flashblock)
      → collected_txs (fs ++ (fb ∷ [])) ≡ collected_txs fs ++ fb.diff.transactions
  collected-snoc [] fb = append-nil fb.diff.transactions
  collected-snoc (x ∷ xs) fb =
      ap (λ l. x.diff.transactions ++ l) (collected-snoc xs fb)
      ∙ sym (append_assoc x.diff.transactions (collected_txs xs) fb.diff.transactions)

  store-Follows :
      (e : State) (fb : Flashblock) (built : BuiltPayload Accounts) (fresh : Bool)
      → is_new_payload e.flashblocks fb ≡ ok fresh
      → built.block.transactions
        ≡ (if fresh then [] else collected_txs e.flashblocks) ++ fb.diff.transactions
      → Follows (store full_node e fb built).0
  unfolding store push
  store-Follows e fb built fresh new_eq txs_eq =
      let fs = (if fresh then [] else e.flashblocks) ++ (fb ∷ []) in
      let stored : State = record e {
        flashblocks = fs;
        latest_payload = some (built, fb.index);
        pending_block = built.executed_block;
      } in
      let frame = broadcast_frame stored built in
      rw (new_eq, store, push)
        (ap (latest_txs chain engine provider node) frame.0
          ∙ txs_eq
          ∙ sym (collected fresh)
          ∙ ap collected_txs (sym frame.1))
    where
      collected :
          (fresh : Bool)
          → collected_txs ((if fresh then [] else e.flashblocks) ++ (fb ∷ []))
            ≡ (if fresh then [] else collected_txs e.flashblocks) ++ fb.diff.transactions
      collected true = collected-snoc [] fb
      collected false = collected-snoc e.flashblocks fb

  build_and_store-Follows :
      (e : State) (fb : Flashblock) (b : ExecutionPayloadBaseV1) (fresh : Bool)
      → Exact
      → is_new_payload e.flashblocks fb ≡ ok fresh
      → latest_txs chain engine provider node e.latest_payload
        ≡ (if fresh then [] else collected_txs e.flashblocks)
      → (build_and_store full_node e fb b).1 ≡ ok tt
      → Follows (build_and_store full_node e fb b).0
  unfolding build_and_store
  build_and_store-Follows e fb b fresh exact new_eq before h =
      elim (Result-cases (build_payload full_node e.latest_payload fb b)) [
        | inl (o, made) ↦
            let (built, some_built, txs, _) =
              build_payload-txs chain engine provider node e.latest_payload fb b o exact made in
            rw (made, some_built, build_and_store)
              (store-Follows e fb built fresh new_eq
                (txs ∙ ap (λ l. l ++ fb.diff.transactions) before))
        | inr (x, failed) ↦ absurd (ground arith)
      ]

  process_unseen-Follows :
      (e : State) (fb : Flashblock)
      → Exact
      → Follows e
      → (process_unseen full_node e fb).1 ≡ ok tt
      → Follows (process_unseen full_node e fb).0
  unfolding process_unseen
  process_unseen-Follows e fb exact follows h =
      elim (Result-cases (is_new_payload e.flashblocks fb)) [
        | inl (true, new_eq) ↦ elim (Option-cases fb.base) [
          | inl none_given ↦ absurd (ground arith)
          | inr (b, given) ↦
              rw (new_eq, given, process_unseen)
                (build_and_store-Follows (record e { latest_payload = none }) fb b true exact new_eq
                  refl (rw (new_eq, given, process_unseen) at h))
        ]
        | inl (false, new_eq) ↦ elim (Result-cases (Collection.base e.flashblocks)) [
          | inl (b, based) ↦
              rw (new_eq, based, process_unseen)
                (build_and_store-Follows e fb b false exact new_eq follows
                  (rw (new_eq, based, process_unseen) at h))
          | inr (x, baseless) ↦ absurd (ground arith)
        ]
        | inr (x, refused) ↦ absurd (ground arith)
      ]

  process_flashblock-Follows :
      (e : State) (payload : Payload)
      → Exact
      → Follows e
      → (process_flashblock full_node e payload).1 ≡ ok tt
      → Follows (process_flashblock full_node e payload).0
  unfolding process_flashblock
  process_flashblock-Follows e payload exact follows h =
      let fb : Flashblock = record { flashblock = payload } in
      elim (Option-cases (already_processed full_node e fb)) [
        | inl unseen ↦
            rw (unseen, process_flashblock)
              (process_unseen-Follows e fb exact follows (rw (unseen, process_flashblock) at h))
        | inr (built, seen) ↦ rw (seen, process_flashblock) follows
      ]

  -- The states that successful calls reach.
  pub data Reached : State → Type 0 where
    started : Reached new
    processed :
        (e : State) (payload : Payload)
        → Reached e
        → (process_flashblock full_node e payload).1 ≡ ok tt
        → Reached (process_flashblock full_node e payload).0

  -- If a decoded transaction has the encoding that it was decoded from, then in every state that
  -- successful calls of process_flashblock, with this builder, reach from the initial one, the block
  -- of the latest payload has exactly the transactions of the collected flashblocks in order, and
  -- the collection and the latest payload are coherent.
  pub Reached-Follows :
      (e : State) → Exact → Reached e → Follows e × IsCoherent full_node.built_id e
  Reached-Follows e exact started =
      (refl, new-IsCoherent (BuiltPayload Accounts) (ExecutedBlock Accounts) full_node.built_id)
  Reached-Follows e exact (processed e' payload reached h) =
      let before = Reached-Follows e' exact reached in
      (
        process_flashblock-Follows e' payload exact before.0 h,
        process_flashblock-IsCoherent full_node e' payload
            (builder_node-IsFaithful chain engine provider node) before.1,
      )
