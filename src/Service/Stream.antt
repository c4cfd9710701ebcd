-- ===== src/Service/Stream.antt =====
-- What a node that hears only itself sends to its own stream: what its executor accepts, at once.
use rblib_world_chain.Prelude.{
  ℕ, ◌≡◌, inl, inr, refl, sym, ap, ◌∙◌, Option, List, [], ◌∷◌, ◌++◌, ok, Option-cases, Result-cases,
  append-nil, append_assoc,
}
use mathlib.Core.Path.{subst}
use rblib_world_chain.Primitives.Data.{Payload, Bytes}
use rblib_world_chain.P2p.{P2pMsg}
use rblib_world_chain.Network
use rblib_world_chain.Network.{publish_new}
use rblib_world_chain.Executor.Request.{Node}
use rblib_world_chain.Executor.{Executor, publish_built_payload}
use rblib_world_chain.Executor.Invariant.{publish_built_payload-IsCoherent}
use rblib_world_chain.Service.{
  Service, ServiceEvent, built, next_round, network, unread, publish_payload, process_next, handle,
  handle_all,
}
use rblib_world_chain.Service.Prompt.{
  accepted_one, accepted, accepted_one-settled, IsSynced, IsPrompt, ArePrompt, Streams,
  published-Streams,
}
use rblib_world_chain.Service.Own.{IsOwn, HasOwnId}
use rblib_world_chain.Service.Orderly.{
  settled, publish_or_keep, IsOrderly, IsSilent, built-Handles, next_round-Handles, network-Handles,
}

module _ {Tx Built Executed Header Env Db : Type 0} (node : Node Tx Built Executed Header Env Db)
    (decode : Bytes → Option P2pMsg) (encode : P2pMsg → Bytes) (now : ℕ) where
  -- the new state by an equation for it, and what is accepted
  Streams-from :
      (s s' : Service Built Executed) (p : Payload) (b : Built) (ps : List Payload)
      → handle node decode encode now s (built p b) ≡ s'
      → accepted_one (publish_built_payload s.executor p b) p ≡ ps
      → Streams node decode encode now s s' ps
      → Streams node decode encode now s
          (handle node decode encode now s (built p b))
          (accepted (settled s.executor) (built p b ∷ []))
  Streams-from s s' p b ps left taken streams =
      let all : accepted (settled s.executor) (built p b ∷ []) ≡ ps =
        append-nil (accepted_one (publish_built_payload (settled s.executor) p b) p)
        ∙ accepted_one-settled s.executor p b
        ∙ taken in
      subst
        (λ u. Streams node decode encode now s u (accepted (settled s.executor) (built p b ∷ [])))
        (sym left) (subst (Streams node decode encode now s s') (sym all) streams)

  built-Streams :
      (s : Service Built Executed) (p : Payload) (b : Built)
      → IsOwn node decode encode now s
      → IsSynced s
      → node.built_id b ≡ p.payload_id
      → HasOwnId node decode encode now s p
      → IsPrompt node decode encode now s p
      → Streams node decode encode now s
          (handle node decode encode now s (built p b))
          (accepted (settled s.executor) (built p b ∷ []))
  unfolding handle publish_payload
  built-Streams s p b v synced id own prompt =
      elim (Result-cases (publish_built_payload s.executor p b)) [
        | inr (x, refused) ↦
            Streams-from s s p b [] (rw (refused, publish_payload) refl)
              (rw (refused, accepted_one) refl) (synced, sym (append-nil s.network.stream))
        | inl ((e', out), published) ↦
            let same =
              (publish_built_payload-IsCoherent node.built_id s.executor e' p out b v.coherent id
                published).1 in
            let as_is = published ∙ ap (λ o. ok (e', o)) same in
            Streams-from s
              (record s { executor = e'; network = publish_new decode encode now s.network p }) p b
              (p ∷ []) (rw (as_is, publish_payload) refl) (rw (as_is, accepted_one) refl)
              (published-Streams node decode encode now s e' p b v synced own prompt as_is)
      ]

  next_round-network :
      (s : Service Built Executed)
      → (handle node decode encode now s next_round).network ≡ s.network
  unfolding handle process_next
  next_round-network s = elim (Option-cases (unread s)) [
    | inl nothing ↦ rw (nothing, process_next) refl
    | inr (q, waits) ↦ rw (waits, process_next) refl
  ]

  -- A round of the task leaves the collection, the latest payload and the network.
  next_round-Streams :
      (s : Service Built Executed)
      → IsOwn node decode encode now s
      → IsSynced s
      → Streams node decode encode now s (handle node decode encode now s next_round) []
  next_round-Streams s v synced =
      let s' = handle node decode encode now s next_round in
      let (_, same) = next_round-Handles node decode encode now s v in
      let network_same = next_round-network s in
      let fs : s'.executor.flashblocks ≡ s.executor.flashblocks =
        ap (λ (e : Executor Built Executed). e.flashblocks) same in
      let latest : s'.executor.latest_payload ≡ s.executor.latest_payload =
        ap (λ (e : Executor Built Executed). e.latest_payload) same in
      (
        λ h. rw (fs, network_same) (synced (λ k. h (latest ∙ k))),
        ap (λ (n : Network.Network). n.stream) network_same ∙ sym (append-nil s.network.stream),
      )

  network-Streams :
      (s : Service Built Executed) (x : Network.Event)
      → IsSynced s
      → IsSilent node decode encode now s.network x
      → Streams node decode encode now s (handle node decode encode now s (network x)) []
  unfolding handle
  network-Streams s x synced silent =
      (λ h. rw silent.0 (synced h), silent.1 ∙ sym (append-nil s.network.stream))

  streams_trans :
      (s t u : List Payload) (ps qs : List Payload)
      → t ≡ s ++ ps
      → u ≡ t ++ qs
      → u ≡ s ++ (ps ++ qs)
  streams_trans s t u ps qs one more = more ∙ ap (λ l. l ++ qs) one ∙ append_assoc s ps qs

  -- On a node with a coherent executor and an ordered protocol state, whose buffer of the current
  -- payload holds what the executor's collection has at the same positions and whose stream holds
  -- only flashblocks of that collection or outdated ones, and whose protocol state, once a
  -- flashblock has been published, is of the collection's payload and waits for the index after it:
  -- any order of publications, each of a payload with its flashblock's id, the id being current or
  -- not in use, with an index of at most 100 and a message that fits a frame, the first of all
  -- opening a payload, of rounds of the task, and of events of the network that change neither the
  -- protocol state nor the stream, adds to the stream exactly the flashblocks that the executor
  -- accepts when it is given the publications alone, in their order.
  pub handle_all-accepted :
      (es : List (ServiceEvent Built)) (s : Service Built Executed)
      → IsOwn node decode encode now s
      → IsSynced s
      → IsOrderly node decode encode now s es
      → ArePrompt node decode encode now s es
      → (handle_all node decode encode now s es).network.stream
        ≡ s.network.stream ++ accepted (settled s.executor) es
  unfolding handle_all
  handle_all-accepted [] s v synced orderly prompt = sym (append-nil s.network.stream)
  handle_all-accepted (built p b ∷ es) s v synced (id, own, orderly) (prompt, later) =
      let s' = handle node decode encode now s (built p b) in
      let e = settled s.executor in
      let (v', same) = built-Handles node decode encode now s p b v id own in
      let (synced', grown) = built-Streams s p b v synced id own prompt in
      let rest = handle_all-accepted es s' v' synced' orderly later in
      streams_trans s.network.stream s'.network.stream _ (accepted e (built p b ∷ [])) _ grown
        (rest ∙ ap (λ e'. s'.network.stream ++ accepted e' es) same)
      ∙ ap (λ l. s.network.stream ++ (l ++ accepted (publish_or_keep e p b) es))
          (append-nil (accepted_one (publish_built_payload e p b) p))
  handle_all-accepted (next_round ∷ es) s v synced orderly prompt =
      let s' = handle node decode encode now s next_round in
      let (v', same) = next_round-Handles node decode encode now s v in
      let (synced', grown) = next_round-Streams s v synced in
      let rest = handle_all-accepted es s' v' synced' orderly prompt in
      streams_trans s.network.stream s'.network.stream _ [] _ grown
        (rest ∙ ap (λ e'. s'.network.stream ++ accepted e' es) same)
  handle_all-accepted (network x ∷ es) s v synced (silent, orderly) prompt =
      let s' = handle node decode encode now s (network x) in
      let (v', same) = network-Handles node decode encode now s x v silent in
      let (synced', grown) = network-Streams s x synced silent in
      let rest = handle_all-accepted es s' v' synced' orderly prompt in
      streams_trans s.network.stream s'.network.stream _ [] _ grown
        (rest ∙ ap (λ e'. s'.network.stream ++ accepted e' es) same)
