-- ===== src/Relay/Collected.antt =====
-- The executor that processes the flashblocks of one payload in order collects just these.
use mathlib.Core.Path.{subst}
use rblib_world_chain.Prelude.{
  ◌≡◌, refl, sym, ap, ◌∙◌, none, some, List, [], ◌∷◌, ◌++◌, Bool, true, false, ok, arith, length,
  Result-cases, Option-cases, Bool-cases, inl, inr, if◌then◌else◌, leb, Result,
}
use rblib_world_chain.Primitives.Data.{Bytes, Payload, Flashblock, ExecutionPayloadBaseV1}
use rblib_world_chain.Primitives.Collection
use rblib_world_chain.Primitives.Collection.{Flashblocks, push, is_new_payload, payload_id}
use rblib_world_chain.Primitives.Collection.Push.{
  is_new_payload-Continues, Continues-is_new_payload,
}
use rblib_world_chain.Executor.Request.{Node, build_payload}
use rblib_world_chain.Executor.Request
use rblib_world_chain.Executor.{
  Executor, new, process_flashblock, process_unseen, build_and_store, store, already_processed,
}
use rblib_world_chain.Executor.Invariant.{IsCoherent, Current}
use rblib_world_chain.Block.{BuiltPayload, ExecutedBlock, EvmEnv, Chain, StateProvider}
use rblib_world_chain.Block.Builder.{Parent, Engine}
use rblib_world_chain.Block.Follower.{builder_node}
use rblib_world_chain.Block.Follower.Built.{IsExact, build_payload-txs}
use rblib_world_chain.Block.Follower.Transactions.{broadcast_frame}

module _ {Accounts Db Cache Info Slots : Type 0} (chain : Chain Accounts)
    (engine : Engine Accounts Db Cache Info Slots) (provider : Db → StateProvider Accounts)
    (node : Node Bytes (BuiltPayload Accounts) (ExecutedBlock Accounts) Parent EvmEnv Db) where
  abbrev pub full_node :
      Node Bytes (BuiltPayload Accounts) (ExecutedBlock Accounts) Parent EvmEnv Db
  full_node = builder_node chain engine provider node

  abbrev pub Follower : Type 0
  Follower = Executor (BuiltPayload Accounts) (ExecutedBlock Accounts)

  -- Every call of `process_flashblock` succeeds.
  abbrev pub Succeeds : Follower → List Payload → Type 0
  Succeeds e [] = Unit {0}
  Succeeds e (p ∷ ps) =
      ((process_flashblock full_node e p).1 ≡ ok tt)
      × Succeeds (process_flashblock full_node e p).0 ps

  store-collects :
      (e : Follower) (fb : Flashblock) (built : BuiltPayload Accounts) (fresh : Bool)
      → is_new_payload e.flashblocks fb ≡ ok fresh
      → (store full_node e fb built).0.flashblocks
        ≡ (if fresh then [] else e.flashblocks) ++ (fb ∷ [])
  unfolding store push
  store-collects e fb built fresh new_eq =
      let stored : Follower = record e {
        flashblocks = (if fresh then [] else e.flashblocks) ++ (fb ∷ []);
        latest_payload = some (built, fb.index);
        pending_block = built.executed_block;
      } in
      rw (new_eq, store, push) (broadcast_frame chain engine provider node stored built).1

  build_and_store-collects :
      (e : Follower) (fb : Flashblock) (b : ExecutionPayloadBaseV1) (fresh : Bool)
      → IsExact chain engine provider node
      → is_new_payload e.flashblocks fb ≡ ok fresh
      → (build_and_store full_node e fb b).1 ≡ ok tt
      → (build_and_store full_node e fb b).0.flashblocks
        ≡ (if fresh then [] else e.flashblocks) ++ (fb ∷ [])
  unfolding build_and_store
  build_and_store-collects e fb b fresh exact new_eq h =
      elim (Result-cases (build_payload full_node e.latest_payload fb b)) [
        | inl (o, made) ↦
            let (built, some_built, _, _) =
              build_payload-txs chain engine provider node e.latest_payload fb b o exact made in
            rw (made, some_built, build_and_store) (store-collects e fb built fresh new_eq)
        | inr (x, failed) ↦ absurd (ground arith)
      ]

  opening :
      (e : Follower) (fb : Flashblock) (b : ExecutionPayloadBaseV1)
      → is_new_payload e.flashblocks fb ≡ ok true
      → fb.base ≡ some b
      → process_unseen full_node e fb
        ≡ build_and_store full_node (record e { latest_payload = none }) fb b
  unfolding process_unseen
  opening e fb b new_eq given = ground arith

  -- A call that succeeds for a flashblock not seen yet adds it, to the collection or to none.
  process_unseen-collects :
      (e : Follower) (fb : Flashblock)
      → IsExact chain engine provider node
      → (process_unseen full_node e fb).1 ≡ ok tt
      → (fresh : Bool) × (is_new_payload e.flashblocks fb ≡ ok fresh)
        × ((process_unseen full_node e fb).0.flashblocks
            ≡ (if fresh then [] else e.flashblocks) ++ (fb ∷ []))
  unfolding process_unseen
  process_unseen-collects e fb exact h = elim (Result-cases (is_new_payload e.flashblocks fb)) [
    | inl (true, new_eq) ↦ elim (Option-cases fb.base) [
      | inl none_given ↦ absurd (ground arith)
      | inr (b, given) ↦ (
        true,
        new_eq,
        ap (λ (r : Follower × Result Request.Error (Unit {0})). r.0.flashblocks)
              (opening e fb b new_eq given)
            ∙ build_and_store-collects (record e { latest_payload = none }) fb b true exact new_eq
                (ap (λ (r : Follower × Result Request.Error (Unit {0})). r.1)
                    (sym (opening e fb b new_eq given))
                  ∙ h),
      )
    ]
    | inl (false, new_eq) ↦ elim (Result-cases (Collection.base e.flashblocks)) [
      | inl (b, based) ↦ (
        false,
        new_eq,
        rw (new_eq, based, process_unseen)
            (build_and_store-collects e fb b false exact new_eq
              (rw (new_eq, based, process_unseen) at h)),
      )
      | inr (x, baseless) ↦ absurd (ground arith)
    ]
    | inr (x, refused) ↦ absurd (ground arith)
  ]

  -- The next flashblock of the payload is not one that is built already.
  next-unseen :
      (e : Follower) (fb : Flashblock)
      → IsCoherent full_node.built_id e
      → fb.index ≡ length e.flashblocks
      → already_processed full_node e fb ≡ none
  unfolding already_processed
  next-unseen e fb v at = elim (Option-cases e.latest_payload) [
    | inl none_yet ↦ ground arith
    | inr ((built, index), latest) ↦
        let current = subst (λ l. Current full_node.built_id e.flashblocks l) latest v.1 in
        let behind : leb fb.index index ≡ false = ground (arith, current.1) in ground arith
  ]

  next-collects :
      (e : Follower) (p : Payload)
      → IsExact chain engine provider node
      → already_processed full_node e (record { flashblock = p }) ≡ none
      → (process_flashblock full_node e p).1 ≡ ok tt
      → (fresh : Bool) × (is_new_payload e.flashblocks (record { flashblock = p }) ≡ ok fresh)
        × ((process_flashblock full_node e p).0.flashblocks
            ≡ (if fresh then [] else e.flashblocks) ++ (record { flashblock = p } ∷ []))
  unfolding process_flashblock
  next-collects e p exact unseen h =
      rw (unseen, process_flashblock)
        (process_unseen-collects e (record { flashblock = p }) exact
          (rw (unseen, process_flashblock) at h))

  -- A successful call for the next flashblock of the payload appends it.
  pub next-appends :
      (e : Follower) (fb : Flashblock)
      → IsExact chain engine provider node
      → IsCoherent full_node.built_id e
      → payload_id e.flashblocks ≡ ok fb.payload_id
      → fb.index ≡ length e.flashblocks
      → (process_flashblock full_node e fb.flashblock).1 ≡ ok tt
      → (process_flashblock full_node e fb.flashblock).0.flashblocks ≡ e.flashblocks ++ (fb ∷ [])
  next-appends e fb exact v of at h =
      let (fresh, new_eq, made) = next-collects e fb.flashblock exact (next-unseen e fb v at) h in
      let continues = Continues-is_new_payload e.flashblocks fb v.0 (of, at) in
      let kept : fresh ≡ false = ground arith in
      made ∙ ap (λ b. (if b then [] else e.flashblocks) ++ (fb ∷ [])) kept

  abbrev pub initial : Follower
  initial = new

  -- A successful call of the initial executor for a flashblock of index 0 collects just this one.
  pub first-collects :
      (fb : Flashblock)
      → IsExact chain engine provider node
      → fb.index ≡ 0
      → (process_flashblock full_node initial fb.flashblock).1 ≡ ok tt
      → (process_flashblock full_node initial fb.flashblock).0.flashblocks ≡ fb ∷ []
  unfolding already_processed
  first-collects fb exact at h =
      let (fresh, new_eq, made) = next-collects initial fb.flashblock exact refl h in
      elim (Bool-cases fresh) [
        | inl opens ↦ made ∙ ap (λ b. (if b then [] else initial.flashblocks) ++ (fb ∷ [])) opens
        | inr goes_on ↦
            let next = is_new_payload-Continues initial.flashblocks fb (new_eq ∙ ap ok goes_on) in
            absurd (omega (arith, at, next.1))
      ]
