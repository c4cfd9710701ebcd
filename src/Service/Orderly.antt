-- ===== src/Service/Orderly.antt =====
-- A node that hears only itself: what its publications and its task leave, in any order.
use rblib_world_chain.Prelude.{
  ℕ, ◌+◌, ◌≡◌, inl, inr, refl, sym, ap, ◌∙◌, All-get_elem?, Option, none, List, [], ◌∷◌, ok, err,
  Option-cases, Result-cases,
}
use mathlib.Core.Path.{subst}
use rblib_world_chain.Primitives.Data.{Payload, Bytes}
use rblib_world_chain.Primitives.Collection.{push}
use rblib_world_chain.P2p.{P2pMsg}
use rblib_world_chain.Network
use rblib_world_chain.Network.{Network, publish_new}
use rblib_world_chain.Executor.Request.{Node}
use rblib_world_chain.Executor.{Executor, publish_built_payload}
use rblib_world_chain.Executor.Invariant.{publish_built_payload-IsCoherent}
use rblib_world_chain.Service.{
  Service, ServiceEvent, built, next_round, network, unread, publish_payload, process_next, handle,
  handle_all,
}
use rblib_world_chain.Service.Own.{IsOwn, HasOwnId, published-IsOwn}
use rblib_world_chain.Service.Echo.{wrapped, IsEcho, process_echo}

module _ {Built Executed : Type 0} where
  -- The executor without its pending block; and with the publications only.
  abbrev pub settled : Executor Built Executed → Executor Built Executed
  settled e = record e { pending_block = none }

  abbrev pub publish_or_keep : Executor Built Executed → Payload → Built → Executor Built Executed
  publish_or_keep e p b = elim (publish_built_payload e p b) [ ok (e', _) ↦ e' | err _ ↦ e ]

  abbrev pub publish_each :
      Executor Built Executed → List (ServiceEvent Built) → Executor Built Executed
  publish_each e [] = e
  publish_each e (built p b ∷ es) = publish_each (publish_or_keep e p b) es
  publish_each e (next_round ∷ es) = publish_each e es
  publish_each e (network x ∷ es) = publish_each e es

  publish_or_keep-settled :
      (e : Executor Built Executed) (p : Payload) (b : Built)
      → publish_or_keep (settled e) p b ≡ settled (publish_or_keep e p b)
  unfolding publish_built_payload
  publish_or_keep-settled e p b = elim (Result-cases (push e.flashblocks (wrapped p))) [
    | inl ((fs, fresh), pushed) ↦ rw (pushed, publish_or_keep) refl
    | inr (x, refused) ↦ rw (refused, publish_or_keep) refl
  ]

module _ {Tx Built Executed Header Env Db : Type 0} (node : Node Tx Built Executed Header Env Db)
    (decode : Bytes → Option P2pMsg) (encode : P2pMsg → Bytes) (now : ℕ) where
  -- An event of the network that changes neither the protocol state nor the stream, as all do while
  -- no flashblock comes from a peer.
  abbrev pub IsSilent : Network → Network.Event → Type 0
  IsSilent n e =
      let n' = Network.step decode encode n e in (n'.state ≡ n.state) × (n'.stream ≡ n.stream)

  -- Each publication, at the time it comes, is of a payload built for it, and has its own id; what
  -- happens in the network is silent.
  abbrev pub IsOrderly : Service Built Executed → List (ServiceEvent Built) → Type 0
  IsOrderly s [] = Unit {0}
  IsOrderly s (built p b ∷ es) =
      (node.built_id b ≡ p.payload_id)
      × HasOwnId node decode encode now s p
      × IsOrderly (handle node decode encode now s (built p b)) es
  IsOrderly s (next_round ∷ es) = IsOrderly (handle node decode encode now s next_round) es
  IsOrderly s (network e ∷ es) =
      IsSilent s.network e × IsOrderly (handle node decode encode now s (network e)) es

  -- What one event leaves: an invariant, and the executor as its publication leaves it.
  abbrev pub Handles : Service Built Executed → ServiceEvent Built → Type 0
  Handles s e =
      let s' = handle node decode encode now s e in
      IsOwn node decode encode now s'
      × (settled s'.executor ≡ publish_each (settled s.executor) (e ∷ []))

  -- the new state and the new executor, by an equation for each
  from_equations :
      (s s' : Service Built Executed) (p : Payload) (b : Built)
      → handle node decode encode now s (built p b) ≡ s'
      → publish_or_keep s.executor p b ≡ s'.executor
      → IsOwn node decode encode now s'
      → Handles s (built p b)
  from_equations s s' p b left kept v = (
    subst (IsOwn node decode encode now) (sym left) v,
    ap (λ (u : Service Built Executed). settled u.executor) left
        ∙ ap settled (sym kept)
        ∙ sym (publish_or_keep-settled s.executor p b),
  )

  pub built-Handles :
      (s : Service Built Executed) (p : Payload) (b : Built)
      → IsOwn node decode encode now s
      → node.built_id b ≡ p.payload_id
      → HasOwnId node decode encode now s p
      → Handles s (built p b)
  unfolding handle publish_payload
  built-Handles s p b v id own = elim (Result-cases (publish_built_payload s.executor p b)) [
    | inr (x, refused) ↦
        from_equations s s p b (rw (refused, publish_payload) refl)
          (rw (refused, publish_or_keep) refl) v
    | inl ((e', out), published) ↦
        let same =
          (publish_built_payload-IsCoherent node.built_id s.executor e' p out b v.coherent id
            published).1 in
        let as_is = published ∙ ap (λ o. ok (e', o)) same in
        from_equations s
          (record s { executor = e'; network = publish_new decode encode now s.network p }) p b
          (rw (as_is, publish_payload) refl) (rw (as_is, publish_or_keep) refl)
          (published-IsOwn node decode encode now s e' p b v id own as_is)
  ]

  pub next_round-Handles :
      (s : Service Built Executed) → IsOwn node decode encode now s → Handles s next_round
  unfolding handle process_next
  next_round-Handles s v = elim (Option-cases (unread s)) [
    | inl nothing ↦
        let left : handle node decode encode now s next_round ≡ s =
          rw (nothing, process_next) refl in
        (
          subst (IsOwn node decode encode now) (sym left) v,
          ap (λ (u : Service Built Executed). settled u.executor) left,
        )
    | inr (q, waits) ↦
        let echo = All-get_elem? (IsEcho s.executor) s.network.stream s.taken q v.echoes waits in
        let (pending, only) = process_echo node s.executor q v.coherent echo in
        let t = record s {
          executor = record s.executor { pending_block = pending };
          taken = s.taken + 1;
        } in
        let left : handle node decode encode now s next_round ≡ t =
          rw (waits, process_next)
            (ap (λ e. record s { executor = e; taken = s.taken + 1 }) only) in
        (
          subst (IsOwn node decode encode now) (sym left) (record {
            coherent = v.coherent;
            ordered = v.ordered;
            linked = v.linked;
            echoes = v.echoes;
          }),
          ap (λ (u : Service Built Executed). settled u.executor) left,
        )
  ]

  pub network-Handles :
      (s : Service Built Executed) (x : Network.Event)
      → IsOwn node decode encode now s
      → IsSilent s.network x
      → Handles s (network x)
  unfolding handle
  network-Handles s x v silent = (
    record {
      coherent = v.coherent;
      ordered = rw silent.0 v.ordered;
      linked = rw silent.0 v.linked;
      echoes = rw silent.1 v.echoes;
    },
    refl,
  )

  -- On a node with a coherent executor and an ordered protocol state, whose buffer of the current
  -- payload holds what the executor's collection has at the same positions and whose stream holds
  -- only flashblocks of that collection or outdated ones, any order of publications, each of a
  -- payload with its flashblock's id, the id being current or not in use, of rounds of the task, and
  -- of events of the network that change neither the protocol state nor the stream, leaves the
  -- executor as the publications alone leave it, but for the pending block.
  pub handle_all-publish_each :
      (es : List (ServiceEvent Built)) (s : Service Built Executed)
      → IsOwn node decode encode now s
      → IsOrderly s es
      → settled (handle_all node decode encode now s es).executor
        ≡ publish_each (settled s.executor) es
  unfolding handle_all
  handle_all-publish_each [] s v o = refl
  handle_all-publish_each (built p b ∷ es) s v o =
      let (v', same) = built-Handles s p b v o.0 o.1 in
      handle_all-publish_each es (handle node decode encode now s (built p b)) v' o.2
      ∙ ap (λ e. publish_each e es) same
  handle_all-publish_each (next_round ∷ es) s v o =
      let (v', same) = next_round-Handles s v in
      handle_all-publish_each es (handle node decode encode now s next_round) v' o
      ∙ ap (λ e. publish_each e es) same
  handle_all-publish_each (network x ∷ es) s v o =
      let (v', same) = network-Handles s x v o.0 in
      handle_all-publish_each es (handle node decode encode now s (network x)) v' o.1
      ∙ ap (λ e. publish_each e es) same
