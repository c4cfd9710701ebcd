-- ===== src/Service/Own.antt =====
-- A node that hears only itself: the invariant, and that a publication keeps it.
use rblib_world_chain.Prelude.{
  ℕ, ◌+◌, ◌≡◌, ◌≢◌, ◌⊎◌, inl, inr, sym, ap, ◌∙◌, All, All-append, All-map, Option, none, some,
  get_elem?, length, All-map₂, arith, ok, Bool, Result-cases,
}
use mathlib.Core.Path.{subst}
use rblib_world_chain.Primitives.Data.{Payload, Bytes}
use rblib_world_chain.Primitives.Collection.{payload_id, push}
use rblib_world_chain.Primitives.Collection.Push.{Pushes, push_iff, push_current}
use rblib_world_chain.P2p.{P2pMsg, slot, publish}
use rblib_world_chain.P2p.Invariant.{IsOrdered, default_state-IsOrdered}
use rblib_world_chain.P2p.Publish.{publish-Emits, start_payload_id}
use rblib_world_chain.Network.{publish_new}
use rblib_world_chain.Executor.Request.{Node}
use rblib_world_chain.Executor.{Executor, publish_built_payload}
use rblib_world_chain.Executor.Invariant.{
  IsCoherent, publish_built_payload-IsCoherent, new-IsCoherent,
}
use rblib_world_chain.Service.{Service, new_service_state}
use rblib_world_chain.Service.Emitted.{publish-Adds}
use rblib_world_chain.Service.Echo.{wrapped, IsEcho}
use rblib_world_chain.Service.Linked.{IsLinked, all-linked}
use rblib_world_chain.Service.Aging.{IsEcho-publish}

module _ {Tx Built Executed Header Env Db : Type 0} (node : Node Tx Built Executed Header Env Db)
    (decode : Bytes → Option P2pMsg) (encode : P2pMsg → Bytes) (now : ℕ) where
  -- The stream has only echoes, and the buffer of the current payload is the collection's.
  pub record IsOwn (s : Service Built Executed) : Type 0 where
    pub coherent : IsCoherent node.built_id s.executor
    pub ordered : IsOrdered s.network.state
    pub linked : IsLinked s.executor.flashblocks s.network.state
    pub echoes : All (IsEcho s.executor) s.network.stream

  -- Either the flashblock is of the current payload, or its payload id is not in use.
  abbrev pub HasOwnId : Service Built Executed → Payload → Type 0
  HasOwnId s p =
      (payload_id s.executor.flashblocks ≡ ok p.payload_id)
      ⊎ ((p.payload_id ≢ s.network.state.payload_id)
          × All (λ q. q.payload_id ≢ p.payload_id) s.network.stream)

  -- What a successful publication leaves in the executor.
  abbrev pub Publishes :
      Executor Built Executed → Executor Built Executed → Payload → Built → Type 0
  Publishes e e' p b =
      (fresh : Bool) × Pushes e.flashblocks (wrapped p) e'.flashblocks fresh
      × (e'.latest_payload ≡ some (b, p.index))
      × (payload_id e'.flashblocks ≡ ok p.payload_id)
      × (p.index + 1 ≡ length e'.flashblocks)

  pub publish-Publishes :
      (e e' : Executor Built Executed) (p out : Payload) (b : Built)
      → IsCoherent node.built_id e
      → publish_built_payload e p b ≡ ok (e', out)
      → Publishes e e' p b
  unfolding publish_built_payload
  publish-Publishes e e' p out b v h = elim (Result-cases (push e.flashblocks (wrapped p))) [
    | inr (x, refused) ↦ absurd (ground arith)
    | inl ((fs, fresh), pushed) ↦
        let same : fs ≡ e'.flashblocks = ground arith in
        let latest : e'.latest_payload ≡ some (b, p.index) = ground arith in
        let pushes = (push_iff e.flashblocks fs (wrapped p) fresh v.0).0 pushed in
        let current = push_current e.flashblocks fs (wrapped p) fresh pushed in
        (
          fresh,
          subst (λ l. Pushes e.flashblocks (wrapped p) l fresh) same pushes,
          latest,
          rw (sym same) current.0,
          rw (sym same) current.1,
        )
  ]

  pub published-IsOwn :
      (s : Service Built Executed) (e' : Executor Built Executed) (p : Payload) (b : Built)
      → IsOwn s
      → node.built_id b ≡ p.payload_id
      → HasOwnId s p
      → publish_built_payload s.executor p b ≡ ok (e', p)
      → IsOwn (record s { executor = e'; network = publish_new decode encode now s.network p })
  unfolding publish_new
  published-IsOwn s e' p b v id own h =
      let state = s.network.state in
      let (t, out) = publish encode now state p in
      let (fresh, pushes, latest, current, _) =
        publish-Publishes s.executor e' p p b v.coherent h in
      let has_latest : e'.latest_payload ≢ none = λ k. cc (latest, k) in
      let emits = publish-Emits encode now state p v.ordered in
      let adds = publish-Adds encode now state p in
      let new_id : (payload_id s.executor.flashblocks ≡ ok p.payload_id)
          ⊎ (p.payload_id ≢ state.payload_id) =
        elim own [ inl same ↦ inl same | inr other ↦ inr (other.0) ] in
      let links =
        all-linked s.executor.flashblocks e'.flashblocks p fresh state t pushes v.linked new_id
          emits.0 adds.0 in
      let ages = IsEcho-publish s.executor e' p fresh v.coherent.0 pushes has_latest current in
      let old : All (IsEcho e') s.network.stream = elim own [
        | inl same ↦ All-map (λ q echo. ages q (inl same) echo) s.network.stream v.echoes
        | inr other ↦
            All-map₂ (λ q differs echo. ages q (inr differs) echo) s.network.stream other.1 v.echoes
      ] in
      let new : All (IsEcho e') out.stream =
        All-map
          (λ q (i, stands).
            let held = emits.0.held i q stands in
            inl (
              (
                cc (current, held.1, emits.1, start_payload_id state p),
                ap (get_elem? e'.flashblocks) held.0 ∙ links i q stands,
              ),
              has_latest,
            ))
          out.stream adds.1 in
      record {
        coherent =
            (publish_built_payload-IsCoherent node.built_id s.executor e' p p b v.coherent id h).0;
        ordered = emits.0;
        linked = λ _. links;
        echoes = All-append (IsEcho e') s.network.stream out.stream old new;
      }

  pub new_service_state-IsOwn : IsOwn new_service_state
  unfolding slot
  new_service_state-IsOwn = record {
    coherent = new-IsCoherent Built Executed node.built_id;
    ordered = default_state-IsOrdered;
    linked = λ same i q h. cc;
    echoes = tt;
  }
