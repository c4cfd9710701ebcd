-- ===== src/Service/Prompt.antt =====
-- A publication of a node that hears only itself is the flashblock that its protocol state awaits.
use rblib_world_chain.Prelude.{
  ℕ, ◌≤◌, ◌≡◌, ◌≢◌, inl, inr, refl, sym, ap, ◌∙◌, Option, none, List, [], ◌∷◌, ◌++◌, length, ◌==◌,
  false, arith, ok, err, Bool, Option-cases, Result, Result-cases,
}
use mathlib.Core.Path.{subst}
use rblib_world_chain.Primitives.Data.{Payload, Bytes}
use rblib_world_chain.Primitives.Collection.{Flashblocks, Error, payload_id, push}
use rblib_world_chain.Primitives.Collection.Push.{Pushes}
use rblib_world_chain.P2p.{P2pMsg, slot, start_payload, publish, max_flashblock_index}
use rblib_world_chain.P2p.Publish.{
  publish-Emits, start_payload_id, start_payload_same, start_payload-IsOrdered,
}
use rblib_world_chain.P2p.Delivery.{Fits}
use rblib_world_chain.P2p.Prompt.{Awaits, admit_awaited}
use rblib_world_chain.Network.{publish_new}
use rblib_world_chain.Executor.Request.{Node}
use rblib_world_chain.Executor.{Executor, publish_built_payload}
use rblib_world_chain.Service.{Service, ServiceEvent, built, next_round, network, handle}
use rblib_world_chain.Service.Emitted.{start_payload_clears, start_payload_restarts}
use rblib_world_chain.Service.Echo.{wrapped, get_elem?_within}
use rblib_world_chain.Service.Own.{IsOwn, HasOwnId, publish-Publishes}
use rblib_world_chain.Service.Orderly.{settled, publish_or_keep}

module _ {Built Executed : Type 0} where
  abbrev pub accepted_one :
      Result Error (Executor Built Executed × Payload) → Payload → List Payload
  accepted_one (ok _) p = p ∷ []
  accepted_one (err _) p = []

  -- The flashblocks that the executor accepts, if it is only given the publications.
  abbrev pub accepted : Executor Built Executed → List (ServiceEvent Built) → List Payload
  accepted e [] = []
  accepted e (built p b ∷ es) =
      accepted_one (publish_built_payload e p b) p ++ accepted (publish_or_keep e p b) es
  accepted e (next_round ∷ es) = accepted e es
  accepted e (network x ∷ es) = accepted e es

  pub accepted_one-settled :
      (e : Executor Built Executed) (p : Payload) (b : Built)
      → accepted_one (publish_built_payload (settled e) p b) p
        ≡ accepted_one (publish_built_payload e p b) p
  unfolding publish_built_payload
  accepted_one-settled e p b = elim (Result-cases (push e.flashblocks (wrapped p))) [
    | inl (r, pushed) ↦ rw (pushed, accepted_one) refl
    | inr (x, refused) ↦ rw (refused, accepted_one) refl
  ]

-- Once a flashblock has been published, the protocol state is where the collection ends.
abbrev pub IsSynced : {Built Executed : Type 0} → Service Built Executed → Type 0
IsSynced s =
    s.executor.latest_payload ≢ none
    → (payload_id s.executor.flashblocks ≡ ok s.network.state.payload_id)
      × (s.network.state.flashblock_index ≡ length s.executor.flashblocks)

-- The first publication of all opens a payload.
abbrev pub OpensFirst : {Built Executed : Type 0} → Executor Built Executed → Payload → Type 0
OpensFirst e p = e.latest_payload ≡ none → payload_id e.flashblocks ≢ ok p.payload_id

module _ {Tx Built Executed Header Env Db : Type 0} (node : Node Tx Built Executed Header Env Db)
    (decode : Bytes → Option P2pMsg) (encode : P2pMsg → Bytes) (now : ℕ) where
  free_of_linked :
      (s : Service Built Executed) (i : ℕ)
      → IsOwn node decode encode now s
      → payload_id s.executor.flashblocks ≡ ok s.network.state.payload_id
      → length s.executor.flashblocks ≤ i
      → slot s.network.state.flashblocks i ≡ none
  free_of_linked s i v same le = elim (Option-cases (slot s.network.state.flashblocks i)) [
    | inl free ↦ free
    | inr (q, taken) ↦
        let within =
          get_elem?_within s.executor.flashblocks i (wrapped q) (v.linked same i q taken) in
        absurd (omega arith)
  ]

  publication_awaited :
      (s : Service Built Executed) (p : Payload) (fs' : Flashblocks) (fresh : Bool)
      → IsOwn node decode encode now s
      → IsSynced s
      → HasOwnId node decode encode now s p
      → OpensFirst s.executor p
      → Pushes s.executor.flashblocks (wrapped p) fs' fresh
      → Awaits (start_payload s.network.state p) p
  publication_awaited s p fs' fresh v synced own first (inl (c, _, _)) =
      let (same, index) = synced (λ nothing. first nothing c.0) in
      let id : p.payload_id ≡ s.network.state.payload_id = cc (c.0, same) in
      subst (λ u. Awaits u p) (sym (start_payload_same s.network.state p id))
        (record {
          ordered = v.ordered;
          same_id = id;
          is_next = index ∙ sym c.1;
          free = λ i le. free_of_linked s i v same (omega (arith, c.1));
        })
  publication_awaited s p fs' fresh v synced own first (inr (o, _, _)) = elim own [
    | inl current ↦ absurd (o.0 current)
    | inr (other, _) ↦
        let state = s.network.state in
        let differs : (p.payload_id == state.payload_id) ≡ false = ground arith in
        record {
          ordered = start_payload-IsOrdered state p v.ordered;
          same_id = sym (start_payload_id state p);
          is_next = start_payload_restarts state p differs ∙ sym o.1;
          free = λ i le. start_payload_clears state p i differs;
        }
  ]

  -- What a publication wants for its flashblock to be emitted at once.
  abbrev pub IsPrompt : Service Built Executed → Payload → Type 0
  IsPrompt s p = Fits encode now p × (p.index ≤ max_flashblock_index) × OpensFirst s.executor p

  -- All publications are prompt, each at the time it comes.
  abbrev pub ArePrompt : Service Built Executed → List (ServiceEvent Built) → Type 0
  ArePrompt s [] = Unit {0}
  ArePrompt s (built p b ∷ es) =
      IsPrompt s p × ArePrompt (handle node decode encode now s (built p b)) es
  ArePrompt s (next_round ∷ es) = ArePrompt (handle node decode encode now s next_round) es
  ArePrompt s (network x ∷ es) = ArePrompt (handle node decode encode now s (network x)) es

  -- The state stays where the collection ends, and the stream grows by what is accepted.
  abbrev pub Streams : Service Built Executed → Service Built Executed → List Payload → Type 0
  Streams s s' ps = IsSynced s' × (s'.network.stream ≡ s.network.stream ++ ps)

  pub published-Streams :
      (s : Service Built Executed) (e' : Executor Built Executed) (p : Payload) (b : Built)
      → IsOwn node decode encode now s
      → IsSynced s
      → HasOwnId node decode encode now s p
      → IsPrompt s p
      → publish_built_payload s.executor p b ≡ ok (e', p)
      → Streams s
          (record s { executor = e'; network = publish_new decode encode now s.network p })
          (p ∷ [])
  unfolding publish_new publish
  published-Streams s e' p b v synced own (fits, le, first) h =
      let state = s.network.state in
      let (fresh, pushes, latest, current, length_next) =
        publish-Publishes node decode encode now s.executor e' p p b v.coherent h in
      let awaits = publication_awaited s p e'.flashblocks fresh v synced own first pushes in
      let (stream, index) = admit_awaited encode now (start_payload state p) p awaits fits le in
      let emits = publish-Emits encode now state p v.ordered in
      (
        λ _. (cc (current, emits.1, start_payload_id state p), index ∙ length_next),
        ap (λ ps. s.network.stream ++ ps) stream,
      )
