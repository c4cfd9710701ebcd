-- ===== src/Block/Follower/Built.antt =====
-- The requests of the executor to this builder, and what it answers.
use mathlib.Core.Option
use mathlib.Core.Option.{some-injective}
use rblib_world_chain.Prelude.{
  ℕ, ◌≡◌, refl, ap, ap₂, ◌∙◌, Option, none, some, List, [], ◌∷◌, ◌++◌, map, ok, collect, arith,
  bind_ok, Option-cases, inl, inr,
}
use rblib_world_chain.Primitives.Data.{Bytes, Flashblock, ExecutionPayloadBaseV1}
use rblib_world_chain.Executor.Request.{Node, BuildRequest, build_request, decode, build_payload}
use rblib_world_chain.Block.{BuiltPayload, ExecutedBlock, EvmEnv, Chain, StateProvider, unwrap_or}
use rblib_world_chain.Block.Builder.{Parent, Engine}
use rblib_world_chain.Block.Builder.Payload.{committed_txs}
use rblib_world_chain.Block.Follower.{builder_node, built-Answers}

module _ {Accounts Db Cache Info Slots : Type 0} (chain : Chain Accounts)
    (engine : Engine Accounts Db Cache Info Slots) (provider : Db → StateProvider Accounts)
    (node : Node Bytes (BuiltPayload Accounts) (ExecutedBlock Accounts) Parent EvmEnv Db) where
  abbrev pub full_node :
      Node Bytes (BuiltPayload Accounts) (ExecutedBlock Accounts) Parent EvmEnv Db
  full_node = builder_node chain engine provider node

  -- A decoded transaction has the encoding that it was decoded from.
  abbrev pub IsExact : Type 0
  IsExact = (b tx : Bytes) → node.decode_2718_exact b ≡ some tx → tx ≡ b

  abbrev pub latest_txs : Option (BuiltPayload Accounts × ℕ) → List Bytes
  latest_txs latest = committed_txs (Option.map (λ p. p.0) latest)

  collect-decode :
      (bs : List Bytes) (txs : List (Bytes × Bytes))
      → IsExact
      → collect (decode full_node) bs ≡ ok txs
      → map (λ t. t.1) txs ≡ bs
  collect-decode [] txs exact h = let same : [] ≡ txs = ground arith in rw⁻¹ same refl
  collect-decode (b ∷ bs) txs exact h =
      let (t, e, h') = bind_ok (decode full_node b) _ txs h in
      let (ts, e', h'') = bind_ok (collect (decode full_node) bs) _ txs h' in
      let same : t ∷ ts ≡ txs = ground arith in
      rw⁻¹ same (ap₂ (λ x xs. x ∷ xs) (decoded b t e) (collect-decode bs ts exact e'))
    where
      decoded : (b : Bytes) (t : Bytes × Bytes) → decode full_node b ≡ ok t → t.1 ≡ b
      decoded b t h = elim (Option-cases (node.decode_2718_exact b)) [
        | inl e ↦ absurd (ground arith)
        | inr (tx, e) ↦ let same : t.1 ≡ tx = ground arith in same ∙ exact b tx e
      ]

  -- What the request for a flashblock carries.
  build_request-carries :
      (latest : Option (BuiltPayload Accounts × ℕ)) (fb : Flashblock) (b : ExecutionPayloadBaseV1)
      (r : BuildRequest Bytes (BuiltPayload Accounts) Parent EvmEnv Db)
      → IsExact
      → build_request full_node latest fb b ≡ ok r
      → (map (λ t. t.1) r.attributes.transactions ≡ fb.diff.transactions)
        × (r.committed_payload ≡ Option.map (λ p. p.0) latest)
        × (r.attributes.gas_limit ≡ none)
  unfolding build_request
  build_request-carries latest fb b r exact h =
      let (txs, e, h') = bind_ok (collect (decode full_node) fb.diff.transactions) _ r h in
      let same : r.attributes.transactions ≡ txs = ground arith in
      (rw same (collect-decode fb.diff.transactions txs exact e), ground arith, ground arith)

  -- If a decoded transaction has the encoding that it was decoded from, a flashblock that the
  -- executor builds with this builder, on a latest payload or none, gives a payload whose block has
  -- the transactions of that payload followed by the flashblock's, and the gas limit 0 in its
  -- header.
  pub build_payload-txs :
      (latest : Option (BuiltPayload Accounts × ℕ)) (fb : Flashblock) (b : ExecutionPayloadBaseV1)
      (o : Option (BuiltPayload Accounts))
      → IsExact
      → build_payload full_node latest fb b ≡ ok o
      → (built : BuiltPayload Accounts) × (o ≡ some built)
        × (built.block.transactions ≡ latest_txs latest ++ fb.diff.transactions)
        × (built.block.header.gas_limit ≡ 0)
  unfolding build_payload
  build_payload-txs latest fb b o exact h =
      let (r, e, h') = bind_ok (build_request full_node latest fb b) _ o h in
      let carries = build_request-carries latest fb b r exact e in
      elim (Option-cases (full_node.build r)) [
        | inl none_built ↦ absurd (ground arith)
        | inr (outcome, e') ↦
            let (built, chosen_eq, answers) =
              built-Answers chain engine provider node r outcome e' in
            (
              built,
              ground arith,
              answers.1 ∙ ap₂ ◌++◌ (ap committed_txs carries.1) carries.0,
              answers.4 ∙ ap (λ l. unwrap_or l 0) carries.2,
            )
      ]
